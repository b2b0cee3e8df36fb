-- ===== src/Network/Transfer/Serve/Batch.antt =====
-- What a request for several files is answered with.
use synapt.Prelude.{
  ℕ, suc, ◌+◌, ◌≡◌, refl, sym, ap, ◌∙◌, Bool, true, false, Option, List, [], ◌∷◌, ◌++◌,
  append_assoc, length, Text, codes, Result, ok, err, if◌then◌else◌, arith,
}
use mathlib.Core.Path.{subst}
use synapt.Network.Crypto.{Bytes, Primitives}
use synapt.Network.Transfer.{
  TransferError, db, World, Action, ◌>>=◌, ◌>>◌, gets, call, query, MsgJson, send, file_skipped,
  batch_complete,
}
use synapt.Network.Transfer.Delivery.{
  IsCalm, call-calm, bind-ok, After, After-bind, After-imp, After-send,
}
use synapt.Network.Transfer.Serve.{
  is_path_allowed, classify_batch, serve_one_file, serve_each, serve_batch,
}
use synapt.Network.Transfer.Serve.Replies.{IsReply, IsReply-serve_one_file}
use synapt.Storage.Rows.{Db}
use synapt.Storage.Devices.{get_shared_dirs}

bind_assoc :
    {B : Type 0} (first : Action (Unit {0})) (next : Action B) (f : B → Action (Unit {0}))
    (w : World)
    → ((first >> next) >>= f) w ≡ (first >> (next >>= f)) w
bind_assoc {B = B} first next f w = go (first w)
  where
    go :
        (r : Result (Unit {0}) TransferError × World)
        → ((λ (v : World). elim r.0 as (λ x. Result B TransferError × World) [
          | err e ↦ (err e, r.1)
          | ok a ↦ next r.1
        ])
              >>= f)
            w
          ≡ (elim r.0 as (λ x. Result (Unit {0}) TransferError × World) [
            | err e ↦ (err e, r.1)
            | ok a ↦ (next >>= f) r.1
          ])
    go (ok u, w') = refl
    go (err e, w') = refl

module _ (p : Primitives) (j : MsgJson) (key : Bytes)
    (canonicalize : Text → Option (List Text)) where
  -- The answer for one path of a batch, given whether it is allowed.
  abbrev pub IsPart : Bool → Option Bytes → Text → List Bytes → Type 0
  IsPart true file path ms = IsReply p j key true file path 0 ms
  IsPart false file path ms = ms ≡ j.to_vec (file_skipped path (codes "access_denied")) ∷ []

  -- The answers for the paths, in their order.
  abbrev pub AreParts : List Text → World → List Text → List Bytes → Type 0
  AreParts dirs w [] ms = ms ≡ []
  AreParts dirs w (path ∷ paths) ms =
      (part : List Bytes) × (rest : List Bytes) × (ms ≡ part ++ rest)
      × IsPart (is_path_allowed canonicalize path dirs) (w.files path) path part
      × AreParts dirs w paths rest

  abbrev pub denied : List Text → List Text → ℕ
  denied dirs [] = 0
  denied dirs (path ∷ paths) =
      if is_path_allowed canonicalize path dirs then denied dirs paths else suc (denied dirs paths)

  -- All the answers of a batch, and the message that ends it, with both counts.
  abbrev pub IsBatch : List Text → World → ℕ → ℕ → List Text → List Bytes → Type 0
  IsBatch dirs w total skipped paths ms =
      (parts : List Bytes) × AreParts dirs w paths parts
      × (ms ≡ parts ++ j.to_vec (batch_complete total (skipped + denied dirs paths)) ∷ [])

  -- The end of a batch, once its loop returns the count of those it skipped.
  abbrev finish : ℕ → ℕ → Action (Unit {0})
  finish total skipped = send p key (j.to_vec (batch_complete total skipped))

  abbrev loop : List Text → List Text → ℕ → Action ℕ
  loop dirs paths skipped =
      serve_each p j key canonicalize (classify_batch canonicalize paths dirs) skipped

  counted :
      (dirs : List Text) (skipped : ℕ) (path : Text) (paths : List Text) (b : Bool)
      → is_path_allowed canonicalize path dirs ≡ b
      → (if b then skipped else skipped + 1) + denied dirs paths
        ≡ skipped + denied dirs (path ∷ paths)
  counted dirs skipped path paths true e = rw e refl
  counted dirs skipped path paths false e = rw e (omega arith)

  one_more :
      (dirs : List Text) (w : World) (total skipped : ℕ) (path : Text) (paths : List Text)
      (b : Bool) (part ms : List Bytes)
      → is_path_allowed canonicalize path dirs ≡ b
      → IsPart b (w.files path) path part
      → IsBatch dirs w total (if b then skipped else skipped + 1) paths ms
      → IsBatch dirs w total skipped (path ∷ paths) (part ++ ms)
  one_more dirs w total skipped path paths b part ms e is (parts, each, q) = (
    part ++ parts,
    (part, parts, refl, subst (λ x. IsPart x (w.files path) path part) (sym e) is, each),
    ap (λ (x : List Bytes). part ++ x) q
        ∙ sym (
            append_assoc part parts (
              j.to_vec
                (batch_complete total ((if b then skipped else skipped + 1) + denied dirs paths))
              ∷ []))
        ∙ ap (λ (n : ℕ). (part ++ parts) ++ j.to_vec (batch_complete total n) ∷ [])
            (counted dirs skipped path paths b e),
  )

  -- One path, then the others.
  After-path :
      (total skipped : ℕ) (w0 w : World) (path : Text) (paths : List Text) (b : Bool)
      (first : Action (Unit {0}))
      → is_path_allowed canonicalize path (get_shared_dirs w0.db) ≡ b
      → w.files ≡ w0.files
      → w.db ≡ w0.db
      → After p key w (IsPart b (w0.files path) path) (first w)
      → ((w' : World) (k : ℕ)
          → IsCalm w'
          → w'.files ≡ w0.files
          → w'.db ≡ w0.db
          → After p key w'
              (IsBatch (get_shared_dirs w0.db) w0 total k paths)
              ((loop (get_shared_dirs w0.db) paths k >>= finish total) w'))
      → After p key w (IsBatch (get_shared_dirs w0.db) w0 total skipped (path ∷ paths)) (
          ((first >> loop (get_shared_dirs w0.db) paths (if b then skipped else skipped + 1))
              >>= finish total)
            w)
  After-path total skipped w0 w path paths b first e f d a ih =
      let dirs = get_shared_dirs w0.db in
      let k = if b then skipped else skipped + 1 in
      let rest = loop dirs paths k in
      subst (λ r. After p key w (IsBatch dirs w0 total skipped (path ∷ paths)) r)
        (sym (bind_assoc first rest (finish total) w))
        (After-bind p key w (IsPart b (w0.files path) path)
          (IsBatch dirs w0 total skipped (path ∷ paths)) first (rest >>= finish total) a
          (λ w' part is s.
            After-imp p key w' (IsBatch dirs w0 total k paths)
              (λ ms. IsBatch dirs w0 total skipped (path ∷ paths) (part ++ ms))
              ((rest >>= finish total) w')
              (λ ms q. one_more dirs w0 total skipped path paths b part ms e is q)
              (ih w' k s.calm (s.same_files ∙ f) (s.same_db ∙ d))))

  After-serve_each :
      (paths : List Text) (total skipped : ℕ) (w0 w : World)
      → IsCalm w
      → w.files ≡ w0.files
      → w.db ≡ w0.db
      → After p key w (IsBatch (get_shared_dirs w0.db) w0 total skipped paths) (
          (serve_each p j key canonicalize
                (classify_batch canonicalize paths (get_shared_dirs w0.db))
                skipped
              >>= λ k. send p key (j.to_vec (batch_complete total k)))
            w)
  unfolding serve_each classify_batch
  After-serve_each [] total skipped w0 w c f d =
      After-imp p key w (λ ms. ms ≡ j.to_vec (batch_complete total skipped) ∷ [])
        (IsBatch (get_shared_dirs w0.db) w0 total skipped [])
        (send p key (j.to_vec (batch_complete total skipped)) w)
        (λ ms e.
          ([], refl, e ∙ ap (λ (n : ℕ). j.to_vec (batch_complete total n) ∷ []) (omega arith)))
        (After-send p key w (j.to_vec (batch_complete total skipped)) c)
  After-serve_each (path ∷ paths) total skipped w0 w c f d =
      go (λ w' k c' f' d'. After-serve_each paths total k w0 w' c' f' d')
        (is_path_allowed canonicalize path (get_shared_dirs w0.db)) refl
    where
      go :
          ((w' : World) (k : ℕ)
            → IsCalm w'
            → w'.files ≡ w0.files
            → w'.db ≡ w0.db
            → After p key w'
                (IsBatch (get_shared_dirs w0.db) w0 total k paths)
                ((loop (get_shared_dirs w0.db) paths k >>= finish total) w'))
          → (b : Bool) → is_path_allowed canonicalize path (get_shared_dirs w0.db) ≡ b
          → After p key w (IsBatch (get_shared_dirs w0.db) w0 total skipped (path ∷ paths)) (
              (serve_each p j key canonicalize
                    ((path, b) ∷ classify_batch canonicalize paths (get_shared_dirs w0.db))
                    skipped
                  >>= finish total)
                w)
      go ih true e =
          After-path total skipped w0 w path paths true (serve_one_file p j key canonicalize path 0)
            e f d
            (After-imp p key w
              (IsReply p j key (is_path_allowed canonicalize path (get_shared_dirs w.db))
                (w.files path) path 0)
              (IsPart true (w0.files path) path) (serve_one_file p j key canonicalize path 0 w)
              (λ ms q.
                subst (λ x. IsReply p j key x (w0.files path) path 0 ms)
                  (ap (λ (y : Db). is_path_allowed canonicalize path (get_shared_dirs y)) d ∙ e)
                  (subst
                    (λ (y : Text → Option Bytes).
                      IsReply p j key (is_path_allowed canonicalize path (get_shared_dirs w.db))
                        (y path) path 0 ms)
                    f q))
              (IsReply-serve_one_file p j key canonicalize path 0 w c))
            ih
      go ih false e =
          After-path total skipped w0 w path paths false
            (send p key (j.to_vec (file_skipped path (codes "access_denied")))) e f d
            (After-send p key w (j.to_vec (file_skipped path (codes "access_denied"))) c) ih

  -- Where no call of the system fails, a batch is answered path by path in the order asked for: a
  -- path outside the shared directories is skipped, with a message that says so, and any other is
  -- served from its start; then come the number of paths and the number skipped. Otherwise the
  -- action ends with an error of the session.
  pub serve_batch_lem :
      (paths : List Text) (w : World)
      → IsCalm w
      → After p key w
          (IsBatch (get_shared_dirs w.db) w (length paths) 0 paths)
          (serve_batch p j key canonicalize paths w)
  unfolding serve_batch
  serve_batch_lem paths w c =
      subst (λ r. After p key w (IsBatch (get_shared_dirs w.db) w (length paths) 0 paths) r)
        (sym (
          bind-ok (query get_shared_dirs)
            (λ dirs.
              serve_each p j key canonicalize (classify_batch canonicalize paths dirs) 0 >>= λ k.
              send p key (j.to_vec (batch_complete (length paths) k)))
            w (get_shared_dirs w.db) w
            (bind-ok (call db) (λ _. gets (λ v. get_shared_dirs v.db)) w tt w (call-calm db w c))))
        (After-serve_each paths (length paths) 0 w w c refl refl)
