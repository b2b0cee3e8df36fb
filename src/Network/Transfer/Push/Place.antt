-- ===== src/Network/Transfer/Push/Place.antt =====
-- The place of a pushed file.
use synapt.Prelude.{
  ℕ, ◌≡◌, refl, sym, ap, ◌∙◌, ◌⊎◌, inl, inr, Bool, true, false, Option, List, [], ◌∷◌, ◌++◌, Text,
  codes, text_eq, Result, ok, err, arith,
}
use mathlib.Core.Path.{subst}
use synapt.Network.Crypto.{Bytes, Primitives}
use synapt.Network.Transfer.{
  TransferError, db, MsgJson, World, Action, ◌>>=◌, query, call, join, with_separator, file_name_or,
}
use synapt.Network.Transfer.Delivery.{bind-ok}
use synapt.Network.Transfer.Push.{
  recv_pushed_file, receive_at, pushed_path, download_dir_or, peer_name_or,
}
use synapt.Network.Transfer.Push.Names.{IsPlain, file_name_or-IsPlain, join-IsPlain}
use synapt.Network.Transfer.Push.Safety.{only_receive_at}
use synapt.Storage.Rows.{Db}
use synapt.Storage.Devices.{get_setting, get_trusted_peers}
use synapt.Storage.Devices.Trust.{find_peer}

-- A query answers from the database as it is, or fails; it changes neither files nor database.
query-cases :
    {A : Type 0} (f : Db → A) (w : World)
    → (w' : World) × (w'.files ≡ w.files)
      × (w'.db ≡ w.db)
      × ((query f w ≡ (ok (f w.db), w')) ⊎ (query f w ≡ (err db, w')))
unfolding call
query-cases f w = go w.faults refl
  where
    go :
        (fs : List Bool)
        → w.faults ≡ fs
        → (w' : World) × (w'.files ≡ w.files)
          × (w'.db ≡ w.db)
          × ((query f w ≡ (ok (f w.db), w')) ⊎ (query f w ≡ (err db, w')))
    go [] e = (w, refl, refl, inl (ground (arith, e)))
    go (false ∷ later) e = (record w { faults = later }, refl, refl, inl (ground (arith, e)))
    go (true ∷ later) e = (record w { faults = later }, refl, refl, inr (ground (arith, e)))

bind-err :
    {A B : Type 0} (first : Action A) (next : A → Action B) (w : World) (e : TransferError)
    (w' : World)
    → first w ≡ (err e, w')
    → (first >>= next) w ≡ (err e, w')
bind-err first next w e w' h = ground (arith, h)

-- An action that starts with a query runs on from what the query answers, or ends there.
files-query :
    {A : Type 0} (f : Db → A) (next : A → Action (Unit {0})) (w : World) (q : Text)
    → ((v : World) → v.db ≡ w.db → (next (f w.db) v).1.files q ≡ v.files q)
    → ((query f >>= next) w).1.files q ≡ w.files q
files-query {A = A} f next w q step =
    let (w', same, d, answer) = query-cases f w in go w' same d answer
  where
    go :
        (w' : World)
        → w'.files ≡ w.files
        → w'.db ≡ w.db
        → ((query f w ≡ (ok (f w.db), w')) ⊎ (query f w ≡ (err db, w')))
        → ((query f >>= next) w).1.files q ≡ w.files q
    go w' same d (inl h) =
        ap (λ (r : Result (Unit {0}) TransferError × World). r.1.files q)
          (bind-ok (query f) next w (f w.db) w' h)
        ∙ step w' d
        ∙ ap (λ (g : Text → Option Bytes). g q) same
    go w' same d (inr h) =
        ap (λ (r : Result (Unit {0}) TransferError × World). r.1.files q)
          (bind-err (query f) next w db w' h)
        ∙ ap (λ (g : Text → Option Bytes). g q) same

module _ (p : Primitives) (j : MsgJson) (key : Bytes) (transfer_id peer_device_id : Text) where
  -- The directory of the peer, in the one that is set for downloads.
  abbrev pub peer_dir : Text → Db → Text
  peer_dir default_dir base =
      join (download_dir_or default_dir (get_setting base (codes "download_dir")))
        (peer_name_or peer_device_id (find_peer peer_device_id (get_trusted_peers base)))

  abbrev rest : Text → Text → ℕ → Text → Option Text → Action (Unit {0})
  rest default_dir filename size checksum setting = query get_trusted_peers >>= λ peers.
      receive_at p j key transfer_id peer_device_id
        (peer_name_or peer_device_id (find_peer peer_device_id peers)) filename
        (pushed_path p j key transfer_id peer_device_id (download_dir_or default_dir setting)
          (peer_name_or peer_device_id (find_peer peer_device_id peers)) filename)
        size checksum

  files-rest :
      (default_dir filename : Text) (size : ℕ) (checksum : Text) (w : World) (q : Text)
      → text_eq (join (peer_dir default_dir w.db) (file_name_or filename)) q ≡ false
      → (rest default_dir filename size checksum
            (get_setting w.db (codes "download_dir"))
            w).1.files
          q
        ≡ w.files q
  files-rest default_dir filename size checksum w q e =
      files-query get_trusted_peers
        (λ peers.
          receive_at p j key transfer_id peer_device_id
            (peer_name_or peer_device_id (find_peer peer_device_id peers)) filename
            (pushed_path p j key transfer_id peer_device_id
              (download_dir_or default_dir (get_setting w.db (codes "download_dir")))
              (peer_name_or peer_device_id (find_peer peer_device_id peers)) filename)
            size checksum)
        w q
        (λ v d.
          (only_receive_at (join (peer_dir default_dir w.db) (file_name_or filename)) p j key
              transfer_id peer_device_id
              (peer_name_or peer_device_id (find_peer peer_device_id (get_trusted_peers w.db)))
              filename size checksum).frame
            v q e)

  -- Whatever the peer sends, and whatever fails, a push changes no file but one: an entry of the
  -- peer's own directory whose name has no separator in it and is neither empty nor dots.
  pub recv_pushed_file_lem :
      (default_dir filename : Text) (size : ℕ) (checksum : Text) (w : World)
      → (name : Text) × IsPlain name
        × ((q : Text)
            → text_eq (with_separator (peer_dir default_dir w.db) ++ name) q ≡ false
            → (recv_pushed_file p j key transfer_id peer_device_id default_dir filename size
                  checksum w).1.files
                q
              ≡ w.files q)
  unfolding recv_pushed_file
  recv_pushed_file_lem default_dir filename size checksum w = (
    file_name_or filename,
    file_name_or-IsPlain filename,
    λ q e.
        files-query (λ base. get_setting base (codes "download_dir"))
          (rest default_dir filename size checksum) w q
          (λ v d.
            subst
              (λ base.
                (rest default_dir filename size checksum (get_setting base (codes "download_dir"))
                    v).1.files
                  q
                ≡ v.files q)
              d
              (files-rest default_dir filename size checksum v q (
                subst
                  (λ base.
                    text_eq (join (peer_dir default_dir base) (file_name_or filename)) q ≡ false)
                  (sym d)
                  (ap (λ (x : Text). text_eq x q)
                      (join-IsPlain (peer_dir default_dir w.db) (file_name_or filename)
                        (file_name_or-IsPlain filename))
                    ∙ e)))),
  )
