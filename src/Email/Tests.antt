-- ===== src/Email/Tests.antt =====
-- pkg/services/email: the theorems on a session that has one recipient, under encoders that change nothing
-- and a parser that takes the text for the body.
use local_web.Base.{
  ◌≡◌, ◌≤◌, refl, true, false, List, [], ◌∷◌, ◌++◌, map, Option, none, some, arith, codes, length,
  keep, All, Bytes,
}
use local_web.Base.Wire.{zeros}
use local_web.Email.Antispam.{new_rate_limiter}
use local_web.Email.Antispam.Rate.{Event, send_all, in_window, send_all_bound}
use local_web.Email.Smtp.{Env, SmtpConfig, SmtpSession, Message, rcpt}
use local_web.Email.Smtp.Data.{read_data}
use local_web.Email.Smtp.Commands.{handle_command}
use local_web.Email.Smtp.Laws.{
  IsDelivery, handle_command-IsDelivery, handle_command-auth_required, handle_command-keeps,
}
use local_web.Email.Smtp.Dots.{stuff, text_of, read_data-stuff}

abbrev parsed : Bytes → Option Message
parsed text = some (record {
  id = [];
  from = [];
  to = [];
  cc = [];
  subject = [];
  body = text;
  headers = [];
  received = 0;
})

abbrev env : Env
env = record {
  unicode = record { upper = λ s. s; lower = λ s. s; trim = λ s. s };
  decode_base64 = λ s. (s, true);
  encode_base64 = λ s. s;
  hmac_md5_hex = λ k m. m;
  sha3 = λ s. zeros 32;
  above_five = λ s. false;
  parse_message = parsed;
  random_string = codes "r";
  generate_id = codes "id";
  now = 5;
}

abbrev config : SmtpConfig
config = record {
  hostname = codes "h";
  auth_required = true;
  tls_enabled = false;
  tls_ready = false;
  credentials = none;
}

abbrev session : SmtpSession
session = record {
  state = rcpt;
  from = codes "x@y";
  recipients = codes "bob@h" ∷ [];
  auth_user = [];
}

abbrev lines : List Bytes
lines = codes "hello" ∷ codes "." ∷ codes "QUIT" ∷ []

handle_command-IsDelivery_example :
    All
      (IsDelivery env session)
      (handle_command env config none (codes "data") session lines).deliveries
handle_command-IsDelivery_example =
    handle_command-IsDelivery env config none (codes "data") session lines

handle_command-auth_required_example :
    handle_command env (record config { auth_required = false }) none (codes "DATA") session lines
    ≡ handle_command env config none (codes "DATA") session lines
handle_command-auth_required_example =
    handle_command-auth_required env config none (codes "DATA") session lines false refl

handle_command-keeps_example :
    (added : List Bytes) × ((handle_command env config none
        (codes "MAIL FROM:<z@y>")
        session
        lines).session.recipients
      ≡ (codes "bob@h" ∷ []) ++ added)
handle_command-keeps_example =
    handle_command-keeps env config none (codes "MAIL FROM:<z@y>") session lines refl

abbrev sent : List Bytes
sent = codes ".." ∷ codes "a.b" ∷ codes "" ∷ codes ".x" ∷ []

read_data-stuff_example :
    read_data (map stuff sent ++ (codes "." ∷ codes "QUIT" ∷ []))
    ≡ some (text_of sent, codes "QUIT" ∷ [])
read_data-stuff_example =
    read_data-stuff sent (codes "QUIT" ∷ []) (refl, (refl, (refl, (refl, tt))))

-- The sends of two senders, and a reset of one of them.
abbrev events : List Event
events =
    Event.send 1 (codes "a")
    ∷ Event.send 1 (codes "b")
    ∷ Event.send 2 (codes "a")
    ∷ Event.forget (codes "b")
    ∷ Event.send 3 (codes "a")
    ∷ Event.send 13 (codes "a")
    ∷ []

send_all_bound_example :
    length (keep (in_window 10 12) (send_all (codes "a") events (new_rate_limiter 2 10) []).1) ≤ 2
send_all_bound_example =
    send_all_bound (codes "a") 2 10 0 events 12
      (omega arith, (omega arith, (omega arith, (omega arith, (omega arith, tt)))))
