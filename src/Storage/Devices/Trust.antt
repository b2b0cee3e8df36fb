-- ===== src/Storage/Devices/Trust.antt =====
-- Which peers are trusted after a pairing and after a revocation.
use synapt.Prelude.{
  ◌≡◌, refl, sym, ap, ◌∙◌, inl, inr, Bool, true, false, Option, none, some, List, [], ◌∷◌, All,
  Text, text_eq, text_eq_refl, text_lt, Bool-cases, arith,
}
use synapt.Prelude.Sort.{sort_by, All-sort_by}
use synapt.Prelude.Members.{In, In-append_right, All-append, In-sort_by}
use synapt.Storage.Rows.{TrustedPeerRow, Db, has_key, write_rows, upsert, delete, select}
use synapt.Storage.Devices.{get_trusted_peers, upsert_trusted_peer, remove_trusted_peer}

-- The search `peers.iter().find(|p| p.device_id == id)` that every session makes.
unfoldable pub find_peer : Text → List TrustedPeerRow → Option TrustedPeerRow
unfolding select
find_peer id peers = select (λ r. text_eq r.device_id id) peers

pub In-select :
    {A : Type 0} (same : A → Bool) (a : A) (rows : List A)
    → select same rows ≡ some a
    → In a rows × (same a ≡ true)
unfolding select
In-select same a [] h = absurd (cc)
In-select same a (r ∷ rows) h = go (same r) refl (In-select same a rows)
  where
    go :
        (b : Bool)
        → same r ≡ b
        → (select same rows ≡ some a → In a rows × (same a ≡ true))
        → In a (r ∷ rows) × (same a ≡ true)
    go true e below =
        let first : r ≡ a = ground (arith, e, h) in (inl (sym first), ap same (sym first) ∙ e)
    go false e below = let (m, t) = below (ground (arith, e, h)) in (inr m, t)

module _ {A : Type 0} (same : A → Bool) where
  pub select-none : (rows : List A) → All (λ r. same r ≡ false) rows → select same rows ≡ none
  unfolding select
  select-none [] h = refl
  select-none (r ∷ rows) h = ground (arith, select-none rows h.1)

  pub select_only :
      (row : A) (rows : List A)
      → same row ≡ true
      → In row rows
      → All (λ r. same r ≡ true → r ≡ row) rows
      → select same rows ≡ some row
  unfolding select
  select_only row [] s m only = absurd m
  select_only row (r ∷ rows) s (inl e) only =
      rw (ap same (sym e) ∙ s, select) (ap (λ (a : A). some a) (sym e))
  select_only row (r ∷ rows) s (inr m) only =
      ground (arith, select_only row rows s m only.1, only.0)

  All-delete : (rows : List A) → All (λ r. same r ≡ false) (delete same rows)
  unfolding delete
  All-delete [] = tt
  All-delete (r ∷ rows) = elim (Bool-cases (same r)) [
    | inl e ↦ rw e (All-delete rows)
    | inr e ↦ rw e (e, All-delete rows)
  ]

  module _ (row : A) (s : same row ≡ true) where
    In-write_rows :
        (rows : List A) → has_key same rows ≡ true → In row (write_rows same (λ r. row) rows)
    unfolding has_key write_rows
    In-write_rows [] h = cc
    In-write_rows (r ∷ rows) h = elim (Bool-cases (same r)) [
      | inl e ↦ inl (rw e)
      | inr e ↦ inr (In-write_rows rows (ground arith))
    ]

    All-write_rows :
        (rows : List A) → All (λ r. same r ≡ true → r ≡ row) (write_rows same (λ r. row) rows)
    unfolding write_rows
    All-write_rows [] = tt
    All-write_rows (r ∷ rows) = ((λ k. ground arith), All-write_rows rows)

    All-has_key :
        (rows : List A) → has_key same rows ≡ false → All (λ r. same r ≡ true → r ≡ row) rows
    unfolding has_key
    All-has_key [] h = tt
    All-has_key (r ∷ rows) h = (λ k. ground arith, All-has_key rows (ground arith))

    In-upsert : (rows : List A) → In row (upsert same row rows)
    unfolding upsert
    In-upsert rows = elim (Bool-cases (has_key same rows)) [
      | inl e ↦ rw e (In-write_rows rows e)
      | inr e ↦ rw e (In-append_right row rows (row ∷ []) (inl refl))
    ]

    All-upsert : (rows : List A) → All (λ r. same r ≡ true → r ≡ row) (upsert same row rows)
    unfolding upsert
    All-upsert rows = elim (Bool-cases (has_key same rows)) [
      | inl e ↦ rw e (All-write_rows rows)
      | inr e ↦ rw e (
          All-append (λ r. same r ≡ true → r ≡ row) rows (row ∷ []) (All-has_key rows e)
            (λ k. refl, tt))
    ]

-- After `upsert_trusted_peer` a session finds exactly the row that was written, whatever was stored
-- before.
pub find_peer-upsert :
    (db : Db) (peer : TrustedPeerRow)
    → find_peer peer.device_id (get_trusted_peers (upsert_trusted_peer db peer)) ≡ some peer
unfolding find_peer get_trusted_peers upsert_trusted_peer
find_peer-upsert db peer =
    let same = λ (r : TrustedPeerRow). text_eq r.device_id peer.device_id in
    let by_name = λ (a b : TrustedPeerRow). text_lt a.device_name b.device_name in
    let s = text_eq_refl peer.device_id in
    let rows = upsert same peer db.trusted_peers in
    select_only same peer (sort_by by_name rows) s
      (In-sort_by by_name peer rows (In-upsert same peer s db.trusted_peers))
      (All-sort_by by_name (λ r. same r ≡ true → r ≡ peer) rows
        (All-upsert same peer s db.trusted_peers))

-- After `remove_trusted_peer` a session finds no peer with that id.
pub find_peer-remove :
    (db : Db) (device_id : Text)
    → find_peer device_id (get_trusted_peers (remove_trusted_peer db device_id)) ≡ none
unfolding find_peer get_trusted_peers remove_trusted_peer
find_peer-remove db device_id =
    let same = λ (r : TrustedPeerRow). text_eq r.device_id device_id in
    let by_name = λ (a b : TrustedPeerRow). text_lt a.device_name b.device_name in
    let rows = delete same db.trusted_peers in
    select-none same (sort_by by_name rows)
      (All-sort_by by_name (λ r. same r ≡ false) rows (All-delete same db.trusted_peers))
