-- ===== src/Email/Smtp/Data.antt =====
-- pkg/services/email/smtp.go, `cmdDATA`.
use local_web.Base.{
  Bool, true, false, not, List, [], ◌∷◌, ◌++◌, Option, none, some, if◌then◌else◌, Bytes, codes,
  same, drop, lookup, put,
}
use local_web.Email.Text.{trim_eol, trim_space, split2, has_prefix}
use local_web.Email.Antispam.{PowChecker, verify_pow, is_spam}
use local_web.Email.Smtp.{SmtpSession, SmtpConfig, Env, Turn, Message, reply, mail}
use local_web.Email.Smtp.{may_data, bad_sequence}

abbrev crlf : Bytes
crlf = 13 ∷ 10 ∷ []

-- A line that starts with two dots loses one.
unfoldable pub unstuff : Bytes → Bytes
unstuff line = if has_prefix (codes "..") line then drop 1 line else line

-- The lines up to a single dot, each with the newline that they get, and the lines behind it; `none` when
-- the input ends before.
unfoldable pub read_data : List Bytes → Option (Bytes × List Bytes)
read_data [] = none
read_data (l ∷ lines) =
    let others = read_data lines in
    if same (trim_eol l) (codes ".") then some ([], lines) else elim others [
      | none ↦ none
      | some (text, rest) ↦ some (unstuff (trim_eol l) ++ (crlf ++ text), rest)
    ]

abbrev received_header : SmtpConfig → SmtpSession → Bytes
received_header config s =
    codes "from " ++ (s.from ++ (codes " by " ++ (config.hostname ++ codes " with ESMTP")))

-- The message that the session's envelope goes onto.
abbrev pub stamp : Env → SmtpConfig → SmtpSession → Message → Message
stamp env config s m = record m {
  from = s.from;
  to = s.recipients;
  id = env.generate_id;
  received = env.now;
  headers = put (codes "Received") (received_header config s) m.headers;
}

-- The check of the header X-PoW, which passes without a checker, a header or a colon in it.
unfoldable pub check_pow : Env → Option PowChecker → Message → Option PowChecker × Bool
check_pow env none m = (none, true)
check_pow env (some p) m = elim (lookup (codes "X-PoW") m.headers) [
  | none ↦ (some p, true)
  | some header ↦
      let (zid, nonce) = split2 58 header in
      elim nonce [
        | none ↦ (some p, true)
        | some nonce ↦
            let (after, valid) =
              verify_pow env.sha3 env.now m.from (trim_space env.unicode nonce) p in
            (some after, valid)
      ]
]

-- A copy for each recipient with an @, to the mailbox of the user before it.
abbrev pub deliveries_to : List Bytes → Message → List (Bytes × Message)
deliveries_to [] m = []
deliveries_to (r ∷ rs) m =
    let (user, host) = split2 64 r in
    let others = deliveries_to rs m in elim host [ none ↦ others | some h ↦ (user, m) ∷ others ]

unfoldable pub cmd_data : Env → SmtpConfig → Option PowChecker → SmtpSession → List Bytes → Turn
cmd_data env config p s lines =
    let start = codes "354 Start mail input; end with <CRLF>.<CRLF>" in
    if not (may_data s.state) then reply bad_sequence p s lines else elim (read_data lines) [
      | none ↦ record (reply (start ∷ []) p s []) { alive = false }
      | some (text, rest) ↦ elim (env.parse_message text) [
        | none ↦ reply (start ∷ codes "550 Failed to parse message" ∷ []) p s rest
        | some parsed ↦
            let m = stamp env config s parsed in
            let (after, worked) = check_pow env p m in
            if not worked
            then reply (start ∷ codes "550 PoW verification failed" ∷ []) after s rest
            else if is_spam env.unicode env.above_five m.headers
            then reply (start ∷ codes "550 Message rejected as spam" ∷ []) after s rest
            else record (reply (start ∷ codes "250 Message accepted" ∷ []) after
                (record s { state = mail }) rest) { deliveries = deliveries_to s.recipients m }
      ]
    ]
