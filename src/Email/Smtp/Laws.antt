-- ===== src/Email/Smtp/Laws.antt =====
-- pkg/services/email/smtp.go: what the commands of a session keep and need.
use mathlib.Core.Path.{subst}
use mathlib.Core.List.{append-nil}
use local_web.Base.{
  ◌≡◌, refl, sym, ◌∙◌, ◌⊎◌, inl, inr, Bool, true, false, not, ◌||◌, List, [], ◌∷◌, ◌++◌, Option,
  arith, if◌then◌else◌, Bool-cases, Option-cases, Bytes, codes, same, same_refl, All, any,
}
use local_web.Email.Antispam.{PowChecker, is_spam}
use local_web.Email.Smtp.{
  SmtpSession, SmtpConfig, Env, Turn, Message, space, arg_of, has_prefix, to_upper, split2,
  may_data, may_rcpt,
}
use local_web.Email.Smtp.{cmd_ehlo, cmd_mail, cmd_rcpt, cmd_rset}
use local_web.Email.Smtp.Auth.{cmd_auth}
use local_web.Email.Smtp.Data.{cmd_data, read_data, deliveries_to, stamp, check_pow}
use local_web.Email.Smtp.Commands.{handle_command, command_of}

-- Whether the configuration requires authentication makes no difference to any command but AUTH: what
-- becomes of the session, the replies and the copies for the mailboxes are the same.
pub handle_command-auth_required :
    (env : Env) (config : SmtpConfig) (p : Option PowChecker) (line : Bytes) (s : SmtpSession)
    (lines : List Bytes) (required : Bool)
    → same (command_of env line) (codes "AUTH") ≡ false
    → handle_command env (record config { auth_required = required }) p line s lines
      ≡ handle_command env config p line s lines
unfolding handle_command cmd_ehlo cmd_data
handle_command-auth_required env config p line s lines required h = rw (handle_command, h) refl

-- What every command but RCPT, DATA and RSET leaves alone.
abbrev IsQuiet : SmtpSession → Turn → Type 0
IsQuiet s t = (t.deliveries ≡ []) × (t.session.recipients ≡ s.recipients)

cmd_ehlo-IsQuiet :
    (config : SmtpConfig) (p : Option PowChecker) (arg : Bytes) (s : SmtpSession)
    (lines : List Bytes)
    → IsQuiet s (cmd_ehlo config p arg s lines)
unfolding cmd_ehlo
cmd_ehlo-IsQuiet config p arg s lines = ground arith

cmd_mail-IsQuiet :
    (env : Env) (p : Option PowChecker) (arg : Bytes) (s : SmtpSession) (lines : List Bytes)
    → IsQuiet s (cmd_mail env p arg s lines)
unfolding cmd_mail
cmd_mail-IsQuiet env p arg s lines = ground arith

cmd_auth-IsQuiet :
    (env : Env) (config : SmtpConfig) (p : Option PowChecker) (arg : Bytes) (s : SmtpSession)
    (lines : List Bytes)
    → IsQuiet s (cmd_auth env config p arg s lines)
unfolding cmd_auth
cmd_auth-IsQuiet env config p arg s lines = ground arith

-- A copy that DATA hands over: the session is in the state after RCPT, the sender and the recipients are
-- the session's, the copy goes to the user of a recipient, and it is not spam.
pub record IsDelivery (env : Env) (s : SmtpSession) (d : Bytes × Message) : Type 0 where
  pub in_rcpt : may_data s.state ≡ true
  pub sender : d.1.from ≡ s.from
  pub receivers : d.1.to ≡ s.recipients
  pub addressed : any (λ r. same (split2 64 r).0 d.0) s.recipients ≡ true
  pub clean : is_spam env.unicode env.above_five d.1.headers ≡ false

deliveries_to-All {ℓ} :
    (P : Bytes × Message → Type ℓ) (rs : List Bytes) (m : Message)
    → ((user : Bytes) → any (λ r. same (split2 64 r).0 user) rs ≡ true → P (user, m))
    → All P (deliveries_to rs m)
deliveries_to-All P [] m h = tt
deliveries_to-All P (r ∷ rs) m h =
    let others = deliveries_to-All P rs m (λ user k. h user (ground (arith, k))) in
    elim (Option-cases (split2 64 r).1) [
      | inl e ↦ rw (e, All) others
      | inr (host, e) ↦
          rw (e, All) (h (split2 64 r).0 (ground (arith, same_refl (split2 64 r).0)), others)
    ]

-- DATA keeps the recipients, and every copy goes out with the envelope of the session.
cmd_data_lem :
    (env : Env) (config : SmtpConfig) (p : Option PowChecker) (s : SmtpSession) (lines : List Bytes)
    → ((cmd_data env config p s lines).session.recipients ≡ s.recipients)
      × ((cmd_data env config p s lines).deliveries ≡ []
          ⊎ ((m : Message) × ((cmd_data env config p s lines).deliveries
                ≡ deliveries_to s.recipients m)
              × (may_data s.state ≡ true)
              × (m.from ≡ s.from)
              × (m.to ≡ s.recipients)
              × (is_spam env.unicode env.above_five m.headers ≡ false)))
unfolding cmd_data
cmd_data_lem env config p s lines = elim (Bool-cases (may_data s.state)) [
  | inr a ↦ rw (cmd_data, a) (refl, inl refl)
  | inl a ↦ elim (Option-cases (read_data lines)) [
    | inl b ↦ rw (cmd_data, a, b) (refl, inl refl)
    | inr ((text, rest), b) ↦ elim (Option-cases (env.parse_message text)) [
      | inl c ↦ rw (cmd_data, a, b, c) (refl, inl refl)
      | inr (parsed, c) ↦
          let m = stamp env config s parsed in
          elim (Bool-cases (check_pow env p m).1) [
            | inr d ↦ rw (cmd_data, a, b, c, d) (refl, inl refl)
            | inl d ↦ elim (Bool-cases (is_spam env.unicode env.above_five m.headers)) [
              | inl e ↦ rw (cmd_data, a, b, c, d, e) (refl, inl refl)
              | inr e ↦ rw (cmd_data, a, b, c, d, e) (refl, inr (m, refl, refl, refl, refl, e))
            ]
          ]
    ]
  ]
]

cmd_data-IsDelivery :
    (env : Env) (config : SmtpConfig) (p : Option PowChecker) (s : SmtpSession) (lines : List Bytes)
    → All (IsDelivery env s) (cmd_data env config p s lines).deliveries
cmd_data-IsDelivery env config p s lines = elim (cmd_data_lem env config p s lines).1 [
  | inl e ↦ subst (All (IsDelivery env s)) (sym e) tt
  | inr (m, e, in_rcpt, sender, receivers, clean) ↦ subst (All (IsDelivery env s)) (sym e) (
      deliveries_to-All (IsDelivery env s) s.recipients m (λ user k. record {
        in_rcpt = in_rcpt;
        sender = sender;
        receivers = receivers;
        addressed = k;
        clean = clean;
      }))
]

-- A property of both branches, and of the second where the test fails.
either {ℓ} : (P : Turn → Type ℓ) (b : Bool) {t u : Turn} → P t → P u → P (if b then t else u)
either P true h k = h
either P false h k = k

other {ℓ} :
    (P : Turn → Type ℓ) (b : Bool) (t : Turn) {u : Turn} → b ≡ false → P u → P (if b then t else u)
other P true t h k = absurd (cc h)
other P false t h k = k

-- Every copy that a command hands to a mailbox, whatever the command and the lines that follow: the session
-- is past RCPT, the copy has the session's sender and recipients, the mailbox is that of a recipient's user,
-- and the message is not spam.
pub handle_command-IsDelivery :
    (env : Env) (config : SmtpConfig) (p : Option PowChecker) (line : Bytes) (s : SmtpSession)
    (lines : List Bytes)
    → All (IsDelivery env s) (handle_command env config p line s lines).deliveries
unfolding handle_command cmd_rcpt cmd_rset
handle_command-IsDelivery env config p line s lines =
    let P : Turn → Type 0 = λ t. All (IsDelivery env s) t.deliveries in
    let none_of : (t : Turn) → t.deliveries ≡ [] → P t =
      λ t q. subst (All (IsDelivery env s)) (sym q) tt in
    let arg = arg_of (split2 space line).1 in
    let cmd = command_of env line in
    either P (same cmd (codes "EHLO") || same cmd (codes "HELO"))
      (none_of (cmd_ehlo config p arg s lines) (cmd_ehlo-IsQuiet config p arg s lines).0)
      (either P (same cmd (codes "AUTH"))
        (none_of (cmd_auth env config p arg s lines) (cmd_auth-IsQuiet env config p arg s lines).0)
        (either P (same cmd (codes "MAIL"))
          (none_of (cmd_mail env p arg s lines) (cmd_mail-IsQuiet env p arg s lines).0)
          (either P (same cmd (codes "RCPT")) (none_of (cmd_rcpt env p arg s lines) (ground arith))
            (either P (same cmd (codes "DATA")) (cmd_data-IsDelivery env config p s lines) (
              either P (same cmd (codes "RSET")) tt (
                either P (same cmd (codes "NOOP")) tt
                  (either P (same cmd (codes "QUIT")) tt tt)))))))

-- Only RSET takes recipients away: whatever else a client sends, the session keeps the recipients that
-- it has, at the front of those it has then.
pub handle_command-keeps :
    (env : Env) (config : SmtpConfig) (p : Option PowChecker) (line : Bytes) (s : SmtpSession)
    (lines : List Bytes)
    → same (command_of env line) (codes "RSET") ≡ false
    → (added : List Bytes) × ((handle_command env config p line s lines).session.recipients
        ≡ s.recipients ++ added)
unfolding handle_command cmd_rcpt
handle_command-keeps env config p line s lines h =
    let P : Turn → Type 0 =
      λ t. (added : List Bytes) × (t.session.recipients ≡ s.recipients ++ added) in
    let same_list : (t : Turn) → t.session.recipients ≡ s.recipients → P t =
      λ t q. ([], q ∙ sym (append-nil s.recipients)) in
    let unchanged : (added : List Bytes) × (s.recipients ≡ s.recipients ++ added) =
      ([], sym (append-nil s.recipients)) in
    let arg = arg_of (split2 space line).1 in
    let cmd = command_of env line in
    either P (same cmd (codes "EHLO") || same cmd (codes "HELO"))
      (same_list (cmd_ehlo config p arg s lines) (cmd_ehlo-IsQuiet config p arg s lines).1)
      (either P (same cmd (codes "AUTH"))
        (same_list (cmd_auth env config p arg s lines)
          (cmd_auth-IsQuiet env config p arg s lines).1)
        (either P (same cmd (codes "MAIL"))
          (same_list (cmd_mail env p arg s lines) (cmd_mail-IsQuiet env p arg s lines).1)
          (either P (same cmd (codes "RCPT"))
            (either P (not (may_rcpt s.state)) unchanged (
              either P (not (has_prefix (codes "TO:") (to_upper env.unicode arg))) unchanged
                (_, refl)))
            (either P (same cmd (codes "DATA"))
              (same_list (cmd_data env config p s lines) (cmd_data_lem env config p s lines).0)
              (other P (same cmd (codes "RSET")) (cmd_rset p s lines) h (
                either P (same cmd (codes "NOOP")) unchanged
                  (either P (same cmd (codes "QUIT")) unchanged unchanged)))))))
