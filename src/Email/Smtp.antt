-- ===== src/Email/Smtp.antt =====
-- pkg/services/email/smtp.go: the session of a client and the commands that change it.
--
-- The reader is the list of the lines that the client still sends; a last line without a newline is left
-- out. What a command does is its `Turn`. The mailboxes, `ParseMessage`, base64, HMAC-MD5, SHA3-256, the
-- scan of a score and Unicode are parameters, and so are the clock and the random strings.
pub mod Auth
pub mod Data
pub mod Commands
pub mod Laws
pub mod Dots
use local_web.Base.{
  ℕ, zero, suc, ◌+◌, ◌-◌, ◌*◌, ◌/◌, ◌%◌, ◌^◌, ◌≤◌, ◌<◌, ◌≡◌, ◌≢◌, refl, sym, ap, ◌∙◌, ◌↔◌, ◌⊎◌, inl,
  inr, Bool, true, false, not, ◌&&◌, ◌||◌, List, [], ◌∷◌, ◌++◌, map, Option, none, some, some_inj,
  arith, ltb, leb, ◌==◌, ==_iff, if◌then◌else◌, Bool-cases, Bool-ext, Option-cases, Bytes, codes,
  same, same_iff, same_refl, member, length, length-append, take, drop, All, any, keep,
  length-keep-le, Dict, lookup, put, delete, lookup-put, lookup-delete, check_range, test_in_range,
}
use local_web.Email.Text.{Unicode, to_upper, trim_eol, trim_space, trim_angles, split2, has_prefix}
use local_web.Email.Antispam.{PowChecker, verify_pow, is_spam}

pub data SmtpState : Type 0 where
  greeting : SmtpState
  ehlo : SmtpState
  mail : SmtpState
  rcpt : SmtpState
  data_state : SmtpState
  auth : SmtpState
  quit : SmtpState

-- The configuration is an argument of the commands; the buffer `dataBuf`, which none fills, is left out.
pub record SmtpSession : Type 0 where
  pub state : SmtpState
  pub from : Bytes
  pub recipients : List Bytes
  pub auth_user : Bytes

-- Flags, size and the places in a mailbox are left out.
pub record Message : Type 0 where
  pub id : Bytes
  pub from : Bytes
  pub to : List Bytes
  pub cc : List Bytes
  pub subject : Bytes
  pub body : Bytes
  pub headers : Dict Bytes
  pub received : ℕ

-- `CredentialVerifier`, with the entries of a `CredentialStore` if it is one.
pub record CredentialVerifier : Type 0 where
  pub verify : Bytes → Bytes → Bool
  pub entries : Option (Dict Bytes)

-- What the commands read of it. `tls_ready`: TLS is enabled and has a configuration.
pub record SmtpConfig : Type 0 where
  pub hostname : Bytes
  pub auth_required : Bool
  pub tls_enabled : Bool
  pub tls_ready : Bool
  pub credentials : Option CredentialVerifier

-- What the code calls.
pub record Env : Type 0 where
  pub unicode : Unicode
  pub decode_base64 : Bytes → Bytes × Bool
  pub encode_base64 : Bytes → Bytes
  pub hmac_md5_hex : Bytes → Bytes → Bytes
  pub sha3 : Bytes → Bytes
  pub above_five : Bytes → Bool
  pub parse_message : Bytes → Option Message
  pub random_string : Bytes
  pub generate_id : Bytes
  pub now : ℕ

-- What has become of the session, the lines and the checker; the replies; what is handed to a mailbox and
-- to whose; and `false` for an error, which ends the connection.
pub record Turn : Type 0 where
  pub session : SmtpSession
  pub rest : List Bytes
  pub checker : Option PowChecker
  pub replies : List Bytes
  pub deliveries : List (Bytes × Message)
  pub alive : Bool

abbrev pub new_session : SmtpSession
new_session = record { state = greeting; from = []; recipients = []; auth_user = [] }

abbrev pub reply : List Bytes → Option PowChecker → SmtpSession → List Bytes → Turn
reply replies p s lines = record {
  session = s;
  rest = lines;
  checker = p;
  replies = replies;
  deliveries = [];
  alive = true;
}

abbrev pub space : ℕ
space = 32

abbrev pub arg_of : Option Bytes → Bytes
arg_of a = elim a [ none ↦ [] | some x ↦ x ]

-- `reader.ReadString`, whose error is dropped, and `TrimRight`.
abbrev pub read_line : List Bytes → Bytes × List Bytes
read_line [] = ([], [])
read_line (l ∷ lines) = (trim_eol l, lines)

unfoldable pub cmd_ehlo : SmtpConfig → Option PowChecker → Bytes → SmtpSession → List Bytes → Turn
cmd_ehlo config p arg s lines =
    let mechanisms : Bytes = elim config.credentials [
      | none ↦ codes "PLAIN"
      | some c ↦ codes "PLAIN LOGIN CRAM-MD5"
    ] in
    if same arg []
    then reply (codes "501 Syntax: EHLO hostname" ∷ []) p s lines
    else reply
        ((codes "250-" ++ (config.hostname ++ (codes " greets " ++ arg)))
          ∷ ((if config.tls_enabled then codes "250-STARTTLS" ∷ [] else [])
              ++ ((codes "250-AUTH " ++ mechanisms) ∷ codes "250-8BITMIME" ∷ codes "250 OK" ∷ [])))
        p (record s { state = ehlo }) lines

abbrev pub may_mail : SmtpState → Bool
may_mail greeting = false
may_mail ehlo = true
may_mail mail = true
may_mail rcpt = true
may_mail data_state = false
may_mail auth = true
may_mail quit = false

abbrev pub may_rcpt : SmtpState → Bool
may_rcpt greeting = false
may_rcpt ehlo = false
may_rcpt mail = true
may_rcpt rcpt = true
may_rcpt data_state = false
may_rcpt auth = false
may_rcpt quit = false

abbrev pub may_data : SmtpState → Bool
may_data greeting = false
may_data ehlo = false
may_data mail = false
may_data rcpt = true
may_data data_state = false
may_data auth = false
may_data quit = false

abbrev pub bad_sequence : List Bytes
bad_sequence = codes "503 Bad sequence of commands" ∷ []

abbrev address : Env → Bytes → Bytes
address env text = trim_angles (trim_space env.unicode text)

unfoldable pub cmd_mail : Env → Option PowChecker → Bytes → SmtpSession → List Bytes → Turn
cmd_mail env p arg s lines =
    if not (may_mail s.state)
    then reply bad_sequence p s lines
    else if not (has_prefix (codes "FROM:") (to_upper env.unicode arg))
    then reply (codes "501 Syntax: MAIL FROM:<address>" ∷ []) p s lines
    else reply (codes "250 OK" ∷ []) p (record s { from = address env (drop 5 arg); state = mail })
        lines

unfoldable pub cmd_rcpt : Env → Option PowChecker → Bytes → SmtpSession → List Bytes → Turn
cmd_rcpt env p arg s lines =
    if not (may_rcpt s.state)
    then reply bad_sequence p s lines
    else if not (has_prefix (codes "TO:") (to_upper env.unicode arg))
    then reply (codes "501 Syntax: RCPT TO:<address>" ∷ []) p s lines
    else reply (codes "250 OK" ∷ []) p
        (record s { recipients = s.recipients ++ (address env (drop 3 arg) ∷ []); state = rcpt })
        lines

unfoldable pub cmd_rset : Option PowChecker → SmtpSession → List Bytes → Turn
cmd_rset p s lines =
    reply (codes "250 OK" ∷ []) p (record s { from = []; recipients = []; state = ehlo }) lines
