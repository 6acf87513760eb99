-- ===== src/Docs/Presence.antt =====
-- pkg/services/docs/presence.go: who is in a document, and where. Times are in nanoseconds.
use local_web.Base.{
  ℕ, zero, suc, ◌-◌, ◌*◌, ◌/◌, ◌%◌, ◌^◌, ◌≡◌, refl, ap, Bool, true, false, not, List, [], ◌∷◌, ◌++◌,
  map, Option, none, some, arith, ltb, ◌==◌, if◌then◌else◌, Bytes, length, take, drop, keep, Dict,
  lookup, put, delete,
}
use local_web.Base.Wire.{put_uint, uint}

pub record Cursor : Type 0 where
  pub peer_id : Bytes
  pub peer_name : Bytes
  pub doc_id : Bytes
  pub line : ℕ
  pub column : ℕ

pub record Selection : Type 0 where
  pub peer_id : Bytes
  pub peer_name : Bytes
  pub doc_id : Bytes
  pub start_line : ℕ
  pub start_col : ℕ
  pub end_line : ℕ
  pub end_col : ℕ

pub record PeerPresence : Type 0 where
  pub peer_id : Bytes
  pub peer_name : Bytes
  pub cursor : Option Cursor
  pub selection : Option Selection
  pub last_seen : ℕ
  pub connected : Bool

pub record PresenceService : Type 0 where
  pub doc_id : Bytes
  pub presence : Dict PeerPresence
  pub timeout : ℕ

-- A timeout of 0 becomes five seconds.
abbrev pub new_presence_service : Bytes → ℕ → PresenceService
new_presence_service doc_id timeout = record {
  doc_id = doc_id;
  presence = [];
  timeout = if timeout == 0 then 5 * 10 ^ 9 else timeout;
}

-- The entry of a peer, or a new one that is not in the map yet; a cursor that was never set is `none`.
unfoldable pub known_or : Bytes → Bytes → Bool → Dict PeerPresence → PeerPresence
known_or peer_id name connected presence = elim (lookup peer_id presence) [
  | some pp ↦ pp
  | none ↦ record {
    peer_id = peer_id;
    peer_name = name;
    cursor = none;
    selection = none;
    last_seen = 0;
    connected = connected;
  }
]

unfoldable pub change :
    Bytes → Bytes → Bool → (PeerPresence → PeerPresence) → PresenceService → PresenceService
unfolding known_or
change peer_id name connected f p = record p {
  presence = put peer_id (f (known_or peer_id name connected p.presence)) p.presence;
}

unfoldable pub update_cursor : ℕ → Bytes → Bytes → ℕ → ℕ → PresenceService → PresenceService
unfolding change
update_cursor now peer_id peer_name line column p =
    change peer_id peer_name true
      (λ pp. record pp {
        cursor = some (record {
          peer_id = peer_id;
          peer_name = peer_name;
          doc_id = p.doc_id;
          line = line;
          column = column;
        });
        last_seen = now;
      })
      p

unfoldable pub update_selection : ℕ → Selection → PresenceService → PresenceService
unfolding change
update_selection now s p =
    change s.peer_id s.peer_name true
      (λ pp. record pp { selection = some (record s { doc_id = p.doc_id }); last_seen = now }) p

unfoldable pub remove_peer : Bytes → PresenceService → PresenceService
remove_peer peer_id p = record p { presence = delete peer_id p.presence }

unfoldable pub get_peer : Bytes → PresenceService → Option PeerPresence
get_peer peer_id p = lookup peer_id p.presence

-- `now.Sub(pp.LastSeen) > p.timeout`.
unfoldable pub is_stale : ℕ → ℕ → PeerPresence → Bool
is_stale now timeout pp = ltb timeout (now - pp.last_seen)

-- `GetAll`: the entries that are not stale, which alone stay in the map.
unfoldable pub get_all : ℕ → PresenceService → PresenceService × List PeerPresence
unfolding is_stale
get_all now p =
    let fresh = keep (λ e. not (is_stale now p.timeout e.1)) p.presence in
    (record p { presence = fresh }, map (λ e. e.1) fresh)

unfoldable pub count : ℕ → PresenceService → ℕ
unfolding is_stale
count now p = length (keep (λ e. not (is_stale now p.timeout e.1)) p.presence)

-- An entry that is there is changed; a peer that is not known is not added.
unfoldable pub change_known :
    Bytes → (PeerPresence → PeerPresence) → PresenceService → PresenceService
change_known peer_id f p = elim (lookup peer_id p.presence) [
  | none ↦ p
  | some pp ↦ record p { presence = put peer_id (f pp) p.presence }
]

unfoldable pub touch_peer : ℕ → Bytes → PresenceService → PresenceService
unfolding change_known
touch_peer now peer_id p = change_known peer_id (λ pp. record pp { last_seen = now }) p

unfoldable pub mark_connected : ℕ → Bytes → Bytes → PresenceService → PresenceService
unfolding change
mark_connected now peer_id peer_name p =
    change peer_id peer_name false (λ pp. record pp { connected = true; last_seen = now }) p

unfoldable pub mark_disconnected : Bytes → PresenceService → PresenceService
unfolding change_known
mark_disconnected peer_id p = change_known peer_id (λ pp. record pp { connected = false }) p

abbrev position_of : Option Cursor → ℕ × ℕ
position_of none = (0, 0)
position_of (some c) = (c.line, c.column)

unfoldable pub put_presence : PeerPresence → Bytes
put_presence pp =
    let (line, column) = position_of pp.cursor in
    pp.peer_id ++ (put_uint 4 line ++ put_uint 4 column)

abbrev pub put_entries : Dict PeerPresence → Bytes
put_entries [] = []
put_entries (e ∷ es) = put_presence e.1 ++ put_entries es

unfoldable pub marshal_presence : ℕ → PresenceService → Bytes
unfolding put_presence is_stale
marshal_presence now p = put_entries (keep (λ e. not (is_stale now p.timeout e.1)) p.presence)

-- An entry of 40 bytes: the id, the line and the column. Its cursor carries the name that is known.
unfoldable pub take_entry : ℕ → Bytes → PresenceService → PresenceService
unfolding change
take_entry now entry p =
    change (take 32 entry) [] true
      (λ pp. record pp {
        cursor = some (record {
          peer_id = take 32 entry;
          peer_name = pp.peer_name;
          doc_id = p.doc_id;
          line = uint 0 (take 4 (drop 32 entry));
          column = uint 0 (drop 36 entry);
        });
        last_seen = now;
      })
      p

abbrev pub take_entries : ℕ → ℕ → Bytes → PresenceService → PresenceService
take_entries now zero payload p = p
take_entries now (suc n) payload p =
    take_entries now n (drop 40 payload) (take_entry now (take 40 payload) p)

unfoldable pub unmarshal_presence : ℕ → Bytes → PresenceService → PresenceService
unfolding take_entry
unmarshal_presence now payload p =
    if length payload % 40 == 0 then take_entries now (length payload / 40) payload p else p

-- The name and the id of each peer that discovery has found.
unfoldable pub from_discovery : ℕ → List (Bytes × Bytes) → PresenceService → PresenceService
unfolding change
from_discovery now [] p = p
from_discovery now ((id, name) ∷ peers) p =
    from_discovery now peers (change id name true (λ pp. record pp { last_seen = now }) p)

keep_twice :
    (f : Bytes × PeerPresence → Bool) (es : Dict PeerPresence) → keep f (keep f es) ≡ keep f es
keep_twice f [] = refl
keep_twice f (e ∷ es) = ground (arith, keep_twice f es)

length-map_entries : (es : Dict PeerPresence) → length (map (λ e. e.1) es) ≡ length es
length-map_entries [] = refl
length-map_entries (e ∷ es) = ap suc (length-map_entries es)

-- `GetAll` gives as many entries as `Count` counts at that time, and `Count` counts as many again behind it.
pub count-get_all :
    (now : ℕ) (p : PresenceService)
    → (length (get_all now p).1 ≡ count now p) × (count now (get_all now p).0 ≡ count now p)
unfolding get_all count
count-get_all now p = (
  length-map_entries (keep (λ e. not (is_stale now p.timeout e.1)) p.presence),
  ap length (keep_twice (λ e. not (is_stale now p.timeout e.1)) p.presence),
)
