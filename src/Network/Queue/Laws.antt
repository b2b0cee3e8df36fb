-- ===== src/Network/Queue/Laws.antt =====
-- What `push` and `update` of queue.rs do to the entries, and the invariant that they keep.
use synapt.Prelude.{
  ℕ, zero, suc, ◌-◌, ◌+◌, ◌≤◌, ◌<◌, ◌≡◌, refl, ap, Option, none, some, List, [], ◌∷◌, map, length,
  take, take-length, length-take, Text, text_eq, text_eq_iff, if◌then◌else◌, arith,
}
use synapt.Network.Queue.{QueueEntry, TransferQueue, new, replace, pop_back, trim, push, list}

-- The first entry with an id.
unfoldable pub find : Text → List QueueEntry → Option QueueEntry
find id [] = none
find id (e ∷ es) = if text_eq e.transfer_id id then some e else find id es

-- Each id occurs once.
abbrev pub Distinct : List QueueEntry → Type 0
Distinct [] = Unit
Distinct (e ∷ es) = (find e.transfer_id es ≡ none) × Distinct es

pub record IsValid (q : TransferQueue) : Type 0 where
  pub bounded : length q.entries ≤ q.max_history
  pub distinct : Distinct q.entries

-- An entry, unless it has the id of `entry`, which then takes its place.
abbrev pub overwrite : QueueEntry → QueueEntry → QueueEntry
overwrite entry e = if text_eq e.transfer_id entry.transfer_id then entry else e

take-pop_back : (m : ℕ) (es : List QueueEntry) → m < length es → take m (pop_back es) ≡ take m es
unfolding pop_back
take-pop_back zero es h = refl
take-pop_back (suc m) [] h = refl
take-pop_back (suc m) (e ∷ []) h = absurd (omega arith)
take-pop_back (suc m) (e ∷ f ∷ es) h =
    ap (λ (l : List QueueEntry). e ∷ l) (take-pop_back m (f ∷ es) (omega arith))

length-pop_back : (es : List QueueEntry) → length (pop_back es) ≡ length es - 1
unfolding pop_back
length-pop_back [] = refl
length-pop_back (e ∷ []) = refl
length-pop_back (e ∷ f ∷ es) = omega (arith, length-pop_back (f ∷ es))

-- The loop has enough rounds, and leaves the newest entries.
trim-eq-take :
    (fuel m : ℕ) (es : List QueueEntry) → length es ≤ fuel + m → trim fuel m es ≡ take m es
unfolding trim
trim-eq-take zero m es h = ground (arith, take-length es m)
trim-eq-take (suc fuel) m es h = ground (
  arith,
  take-length es m,
  length-pop_back es,
  take-pop_back m es,
  trim-eq-take fuel m (pop_back es),
)

replace_absent :
    (entry : QueueEntry) (es : List QueueEntry)
    → find entry.transfer_id es ≡ none
    → replace entry es ≡ none
unfolding replace find
replace_absent entry [] h = refl
replace_absent entry (e ∷ es) h = ground (arith, replace_absent entry es)

map-overwrite_absent :
    (entry : QueueEntry) (es : List QueueEntry)
    → find entry.transfer_id es ≡ none
    → map (overwrite entry) es ≡ es
unfolding find
map-overwrite_absent entry [] h = refl
map-overwrite_absent entry (e ∷ es) h = ground (arith, map-overwrite_absent entry es)

find_congr : (i j : Text) (es : List QueueEntry) → i ≡ j → find i es ≡ find j es
find_congr i j es p = ap (λ (t : Text). find t es) p

replace_present :
    (entry old : QueueEntry) (es : List QueueEntry)
    → Distinct es
    → find entry.transfer_id es ≡ some old
    → replace entry es ≡ some (map (overwrite entry) es)
unfolding replace find
replace_present entry old [] d h = cc
replace_present entry old (e ∷ es) d h = ground (
  arith,
  replace_present entry old es d.1,
  map-overwrite_absent entry es,
  text_eq_iff e.transfer_id entry.transfer_id,
  find_congr e.transfer_id entry.transfer_id es,
)

-- The entries after a push, by what a search for the id finds.
abbrev pub pushed : TransferQueue → QueueEntry → Option QueueEntry → List QueueEntry
pushed q entry none = take q.max_history (entry ∷ q.entries)
pushed q entry (some old) = map (overwrite entry) q.entries

push_absent :
    (q : TransferQueue) (entry : QueueEntry)
    → find entry.transfer_id q.entries ≡ none
    → list (push q entry) ≡ take q.max_history (entry ∷ q.entries)
unfolding push list
push_absent q entry h =
    rw (replace_absent entry q.entries h, push)
      (trim-eq-take (length (entry ∷ q.entries)) q.max_history (entry ∷ q.entries) (omega arith))

push_present :
    (q : TransferQueue) (entry old : QueueEntry)
    → Distinct q.entries
    → find entry.transfer_id q.entries ≡ some old
    → list (push q entry) ≡ map (overwrite entry) q.entries
unfolding push list
push_present q entry old d h = rw (replace_present entry old q.entries d h, push)

-- In a valid queue `push` overwrites the entry with the same id where it stands, or, if there is
-- none, puts the new entry in front and keeps the newest `max_history` entries.
pub push_lem :
    (q : TransferQueue) (entry : QueueEntry)
    → IsValid q
    → list (push q entry) ≡ pushed q entry (find entry.transfer_id q.entries)
push_lem q entry v = go (find entry.transfer_id q.entries) refl
  where
    go :
        (found : Option QueueEntry)
        → find entry.transfer_id q.entries ≡ found
        → list (push q entry) ≡ pushed q entry found
    go none h = push_absent q entry h
    go (some old) h = push_present q entry old v.distinct h

length-map-overwrite :
    (entry : QueueEntry) (es : List QueueEntry) → length (map (overwrite entry) es) ≡ length es
length-map-overwrite entry [] = refl
length-map-overwrite entry (e ∷ es) = omega (arith, length-map-overwrite entry es)

find-take :
    (id : Text) (n : ℕ) (es : List QueueEntry) → find id es ≡ none → find id (take n es) ≡ none
unfolding find
find-take id zero es h = refl
find-take id (suc n) [] h = refl
find-take id (suc n) (e ∷ es) h = ground (arith, find-take id n es)

Distinct-take : (n : ℕ) (es : List QueueEntry) → Distinct es → Distinct (take n es)
Distinct-take zero es d = tt
Distinct-take (suc n) [] d = tt
Distinct-take (suc n) (e ∷ es) d = (find-take e.transfer_id n es d.0, Distinct-take n es d.1)

-- Overwriting changes no id.
transfer_id-overwrite : (entry e : QueueEntry) → (overwrite entry e).transfer_id ≡ e.transfer_id
transfer_id-overwrite entry e = ground (arith, text_eq_iff e.transfer_id entry.transfer_id)

find-none-overwrite :
    (id : Text) (entry : QueueEntry) (es : List QueueEntry)
    → find id es ≡ none
    → find id (map (overwrite entry) es) ≡ none
unfolding find
find-none-overwrite id entry [] h = refl
find-none-overwrite id entry (e ∷ es) h =
    rw (transfer_id-overwrite entry e) (ground (arith, find-none-overwrite id entry es))

Distinct-overwrite :
    (entry : QueueEntry) (es : List QueueEntry) → Distinct es → Distinct (map (overwrite entry) es)
Distinct-overwrite entry [] d = tt
Distinct-overwrite entry (e ∷ es) d = (
  rw (transfer_id-overwrite entry e) (find-none-overwrite e.transfer_id entry es d.0),
  Distinct-overwrite entry es d.1,
)

pushed-bounded :
    (q : TransferQueue) (entry : QueueEntry) (found : Option QueueEntry)
    → IsValid q
    → length (pushed q entry found) ≤ q.max_history
pushed-bounded q entry none v = length-take q.max_history (entry ∷ q.entries)
pushed-bounded q entry (some old) v = omega (arith, length-map-overwrite entry q.entries)

pushed-Distinct :
    (q : TransferQueue) (entry : QueueEntry) (found : Option QueueEntry)
    → find entry.transfer_id q.entries ≡ found
    → IsValid q
    → Distinct (pushed q entry found)
pushed-Distinct q entry none h v = Distinct-take q.max_history (entry ∷ q.entries) (h, v.distinct)
pushed-Distinct q entry (some old) h v = Distinct-overwrite entry q.entries v.distinct

max_history-push :
    (q : TransferQueue) (entry : QueueEntry) → (push q entry).max_history ≡ q.max_history
unfolding push
max_history-push q entry = ground arith

-- `push` keeps a queue valid: at most `max_history` entries, and no id twice.
pub push-IsValid : (q : TransferQueue) (entry : QueueEntry) → IsValid q → IsValid (push q entry)
unfolding list
push-IsValid q entry v = record {
  bounded =
      rw (max_history-push q entry, push_lem q entry v)
        (pushed-bounded q entry (find entry.transfer_id q.entries) v);
  distinct =
      rw (push_lem q entry v) (pushed-Distinct q entry (find entry.transfer_id q.entries) refl v);
}

pub new-IsValid : (max_history : ℕ) → IsValid (new max_history)
unfolding new
new-IsValid max_history = record { bounded = omega arith; distinct = tt }
