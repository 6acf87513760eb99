-- ===== src/Email/Smtp/Commands.antt =====
-- pkg/services/email/smtp.go, `handleCommand` and the loop of `handleConn`.
use local_web.Base.{Bool, ◌||◌, List, [], ◌∷◌, Option, if◌then◌else◌, Bytes, codes, same}
use local_web.Email.Text.{to_upper, trim_eol, split2}
use local_web.Email.Antispam.{PowChecker}
use local_web.Email.Smtp.{SmtpSession, SmtpConfig, Env, Turn, reply, space, arg_of, ehlo, quit}
use local_web.Email.Smtp.{cmd_ehlo, cmd_mail, cmd_rcpt, cmd_rset}
use local_web.Email.Smtp.Auth.{cmd_auth}
use local_web.Email.Smtp.Data.{cmd_data}

-- The command of a line, and its argument.
abbrev pub command_of : Env → Bytes → Bytes
command_of env line = to_upper env.unicode (split2 space line).0

unfoldable pub handle_command :
    Env → SmtpConfig → Option PowChecker → Bytes → SmtpSession → List Bytes → Turn
handle_command env config p line s lines =
    let cmd = command_of env line in
    let arg = arg_of (split2 space line).1 in
    if same cmd (codes "EHLO") || same cmd (codes "HELO")
    then cmd_ehlo config p arg s lines
    else if same cmd (codes "AUTH")
    then cmd_auth env config p arg s lines
    else if same cmd (codes "MAIL")
    then cmd_mail env p arg s lines
    else if same cmd (codes "RCPT")
    then cmd_rcpt env p arg s lines
    else if same cmd (codes "DATA")
    then cmd_data env config p s lines
    else if same cmd (codes "RSET")
    then cmd_rset p s lines
    else if same cmd (codes "NOOP")
    then reply (codes "250 OK" ∷ []) p s lines
    else if same cmd (codes "QUIT")
    then reply (codes "221 Bye" ∷ []) p (record s { state = quit }) lines
    else reply (codes "500 Unknown command" ∷ []) p s lines

-- What one line does in the loop. `tls` is a handshake that succeeds; the lines after it are those of the
-- new connection.
unfoldable pub handle_line :
    Bool → Env → SmtpConfig → Option PowChecker → Bytes → SmtpSession → List Bytes → Turn
unfolding handle_command
handle_line tls env config p full s lines =
    let line = trim_eol full in
    if same line []
    then reply [] p s lines
    else if same (command_of env line) (codes "STARTTLS")
    then if config.tls_ready
      then record (reply (codes "220 Ready to start TLS" ∷ []) p
          (if tls then record s { state = ehlo } else s) lines) { alive = tls }
      else reply (codes "454 TLS not available" ∷ []) p s lines
    else handle_command env config p line s lines
