-- ===== src/Email/Smtp/Auth.antt =====
-- pkg/services/email/smtp.go, `cmdAUTH`.
use local_web.Base.{
  Bool, false, not, ◌&&◌, List, [], ◌∷◌, ◌++◌, Option, none, some, if◌then◌else◌, Bytes, codes,
  same, lookup,
}
use local_web.Email.Text.{to_upper, split2}
use local_web.Email.Antispam.{PowChecker}
use local_web.Email.Smtp.{SmtpSession, SmtpConfig, Env, Turn, reply, space, arg_of, read_line, auth}

abbrev verify_credentials : SmtpConfig → Bytes → Bytes → Bool
verify_credentials config user pass = elim config.credentials [
  | none ↦ false
  | some v ↦ v.verify user pass
]

abbrev verify_cram_md5 : Env → SmtpConfig → Bytes → Bytes → Bytes → Bool
verify_cram_md5 env config user challenge proof = elim config.credentials [
  | none ↦ false
  | some v ↦ elim v.entries [
    | none ↦ false
    | some entries ↦ elim (lookup user entries) [
      | none ↦ false
      | some hashed ↦ same (env.hmac_md5_hex hashed challenge) proof
    ]
  ]
]

-- The end of every mechanism.
abbrev pub log_in :
    List Bytes → SmtpConfig → Option PowChecker → Bytes → Bool → SmtpSession → List Bytes → Turn
log_in before config p user verified s lines =
    if config.auth_required && not verified
    then reply (before ++ (codes "535 Authentication failed" ∷ [])) p s lines
    else reply (before ++ (codes "235 Authenticated" ∷ [])) p
        (record s { auth_user = user; state = auth }) lines

-- `SplitN(data, "\x00", 3)` has three fields when the second separator is there.
abbrev auth_plain : Env → SmtpConfig → Option PowChecker → Bytes → SmtpSession → List Bytes → Turn
auth_plain env config p param s lines =
    let (decoded, valid) = env.decode_base64 param in
    let (zid, fields) = split2 0 decoded in
    let (user, pass) = split2 0 (arg_of fields) in
    if not valid then reply (codes "501 Invalid base64" ∷ []) p s lines else elim pass [
      | none ↦ reply (codes "501 Invalid auth data" ∷ []) p s lines
      | some pass ↦ log_in [] config p user (verify_credentials config user pass) s lines
    ]

-- The user name and the lines behind it, with what is asked for on the way.
abbrev login_user : Env → Bytes → List Bytes → List Bytes × Bytes × List Bytes
login_user env [] lines =
    let (user, rest) = read_line lines in
    (codes "334 VXNlcm5hbWU6" ∷ codes "334 UGFzc3dvcmQ6" ∷ [], user, rest)
login_user env (b ∷ bs) lines =
    (codes "334 UGFzc3dvcmQ6" ∷ [], (env.decode_base64 (b ∷ bs)).0, lines)

abbrev auth_login : Env → SmtpConfig → Option PowChecker → Bytes → SmtpSession → List Bytes → Turn
auth_login env config p param s lines =
    let (asked, user, after) = login_user env param lines in
    let (pass, rest) = read_line after in
    log_in asked config p user (verify_credentials config user pass) s rest

abbrev auth_cram_md5 : Env → SmtpConfig → Option PowChecker → SmtpSession → List Bytes → Turn
auth_cram_md5 env config p s lines =
    let challenge =
      codes "<" ++ (env.random_string ++ (codes "@" ++ (config.hostname ++ codes ">"))) in
    let sent = codes "334 " ++ env.encode_base64 challenge in
    let (response, rest) = read_line lines in
    let (user, proof) = split2 space (env.decode_base64 response).0 in
    elim proof [
      | none ↦ reply (sent ∷ codes "501 Invalid auth data" ∷ []) p s rest
      | some proof ↦
          log_in (sent ∷ []) config p user (verify_cram_md5 env config user challenge proof) s rest
    ]

unfoldable pub cmd_auth :
    Env → SmtpConfig → Option PowChecker → Bytes → SmtpSession → List Bytes → Turn
cmd_auth env config p arg s lines =
    let (head, tail) = split2 space arg in
    let mechanism = to_upper env.unicode head in
    let param = arg_of tail in
    if same mechanism (codes "PLAIN")
    then auth_plain env config p param s lines
    else if same mechanism (codes "LOGIN")
    then auth_login env config p param s lines
    else if same mechanism (codes "CRAM-MD5")
    then auth_cram_md5 env config p s lines
    else reply (codes "504 Unsupported AUTH mechanism" ∷ []) p s lines
