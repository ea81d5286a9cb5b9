-- ===== src/System/Broker.antt =====
-- What a device promises, without addresses: bios by their numbers, in order, and how each ended.
use bdtun.Base.{ℕ, ◌≡◌, Bool, true, false, List, [], ◌∷◌, ◌++◌, Option, none, some}
use bdtun.Device.{Errno, Bio, Addr, Entry, Heap, Machine}

-- `waiting` for a client, first come first; `taken` by a client; `ended`, with whether it was
-- without an error, latest first.
pub record Broker : Type 0 where
  pub waiting : List ℕ
  pub taken : List ℕ
  pub ended : List (ℕ × Bool)

-- `ys` is `xs` with one `x` taken out.
pub data Removed (x : ℕ) : List ℕ → List ℕ → Type 0 where
  first : (xs : List ℕ) → Removed x (x ∷ xs) xs
  later : (y : ℕ) {xs ys : List ℕ} → Removed x xs ys → Removed x (y ∷ xs) (y ∷ ys)

-- What a call asks of a broker: to take a bio in, or in vain; to hand the first to a client; to answer
-- the bio of a number; to take back all that clients hold; or nothing.
pub data Event : Type 0 where
  submitted refused : ℕ → Event
  took : Event
  answered : ℕ → Bool → Event
  took_back : Event
  nothing : Event

pub data BrokerStep (b : Broker) : Event → Broker → Type 0 where
  submit : (x : ℕ) → BrokerStep b (submitted x) (record b { waiting = b.waiting ++ x ∷ [] })
  refuse : (x : ℕ) → BrokerStep b (refused x) (record b { ended = (x, false) ∷ b.ended })
  take_first :
      {x : ℕ} {rest : List ℕ}
      → b.waiting ≡ x ∷ rest
      → BrokerStep b took (record b { waiting = rest; taken = b.taken ++ x ∷ [] })
  answer_taken :
      {x : ℕ} {rest : List ℕ} (good : Bool)
      → Removed x b.taken rest
      → BrokerStep b (answered x good) (record b { taken = rest; ended = (x, good) ∷ b.ended })
  answer_waiting :
      {x : ℕ} {rest : List ℕ} (good : Bool)
      → Removed x b.waiting rest
      → BrokerStep b (answered x good) (record b { waiting = rest; ended = (x, good) ∷ b.ended })
  take_back : BrokerStep b took_back (record b { waiting = b.waiting ++ b.taken; taken = [] })
  stay : BrokerStep b nothing b

-- What a broker comes to by events, the latest first.
pub data BrokerHistory (b : Broker) : List Event → Broker → Type 0 where
  begin : BrokerHistory b [] b
  follow :
      {events : List Event} {event : Event} {c d : Broker}
      → BrokerHistory b events c
      → BrokerStep c event d
      → BrokerHistory b (event ∷ events) d

-- The numbers of the bios that a list leads to, and how those that ended did.
abbrev pub id_of : Option Entry → List ℕ → List ℕ
id_of none rest = rest
id_of (some e) rest = e.bio.bio_id ∷ rest

abbrev pub ids : Heap → List Addr → List ℕ
ids h [] = []
ids h (a ∷ bs) = id_of (h a) (ids h bs)

abbrev pub is_good : Option Errno → Bool
is_good none = true
is_good (some e) = false

abbrev pub marks : List (Bio × Option Errno) → List (ℕ × Bool)
marks [] = []
marks ((bio, e) ∷ rest) = (bio.bio_id, is_good e) ∷ marks rest

abbrev pub broker : Machine → Broker
broker m = record {
  waiting = ids m.heap m.dev.incoming_bio_list;
  taken = ids m.heap m.dev.pending_bio_list;
  ended = marks m.ended;
}
