-- ===== src/Network/Transfer/Push/Containment.antt =====
-- What a push can write.
use synapt.Prelude.{
  ℕ, zero, suc, ◌≡◌, refl, sym, ap, ◌∙◌, Bool, true, false, Option, none, some, List, [], ◌∷◌, ◌++◌,
  is_empty, length, take, drop, min, Text, text_eq, Result, ok, err, if◌then◌else◌,
}
use synapt.Network.Crypto.{Bytes}
use synapt.Network.Transfer.Request.{store, write_file, remove_file, write_at, content_of}
use synapt.Network.Transfer.Serve.{hash_chunks}
use synapt.Storage.Rows.{Db}
use synapt.Network.Transfer.{
  db, gets, modify, execute, read_chunk, chunk_size, TransferError, io, World, Action, ◌>>=◌, give,
  call,
}

-- The action changes no file but the one at the path, whatever happens.
abbrev pub WritesOnly : {A : Type 0} → Text → Action A → Type 0
WritesOnly path action =
    (w : World) (q : Text) → text_eq path q ≡ false → (action w).1.files q ≡ w.files q

pub bind-only :
    {A B : Type 0} (path : Text) (first : Action A) (next : A → Action B)
    → WritesOnly path first
    → ((a : A) → WritesOnly path (next a))
    → WritesOnly path (first >>= next)
bind-only {A = A} {B = B} path first next f n w q e = go (first w) refl
  where
    go :
        (r : Result A TransferError × World)
        → first w ≡ r
        → (elim r.0 as (λ x. Result B TransferError × World) [
          | err x ↦ (err x, r.1)
          | ok a ↦ next a r.1
        ]).1.files
            q
          ≡ w.files q
    go (ok a, w') h =
        n a w' q e ∙ ap (λ (x : Result A TransferError × World). x.1.files q) (sym h) ∙ f w q e
    go (err x, w') h = ap (λ (x : Result A TransferError × World). x.1.files q) (sym h) ∙ f w q e

pub call-only : (path : Text) (x : TransferError) → WritesOnly path (call x)
unfolding call
call-only path x w q e = go w.faults
  where
    go :
        (fs : List Bool)
        → (elim fs as (λ y. Result (Unit {0}) TransferError × World) [
          | [] ↦ (ok tt, w)
          | fault ∷ later ↦ (if fault then err x else ok tt, record w { faults = later })
        ]).1.files
            q
          ≡ w.files q
    go [] = refl
    go (fault ∷ later) = refl

pub store-only : (path : Text) (content : Option Bytes) → WritesOnly path (store path content)
store-only path content w q e = rw e refl

pub write_file-only :
    (path : Text) (n : ℕ) (chunk : Bytes) → WritesOnly path (write_file path n chunk)
unfolding write_file
write_file-only path n chunk =
    bind-only path (call io)
      (λ _.
        gets (λ w. w.files path) >>= λ old. store path (some (write_at n chunk (content_of old))))
      (call-only path io)
      (λ _ w q e. store-only path (some (write_at n chunk (content_of (w.files path)))) w q e)

pub remove_file-only : (path : Text) → WritesOnly path (remove_file path)
unfolding remove_file
remove_file-only path w q e = go (call io w) refl
  where
    go :
        (r : Result (Unit {0}) TransferError × World)
        → call io w ≡ r
        → (elim r.0 as (λ x. Result (Unit {0}) TransferError × World) [
          | ok u ↦ store path none r.1
          | err x ↦ (ok tt, r.1)
        ]).1.files
            q
          ≡ w.files q
    go (ok u, w') h =
        store-only path none w' q e
        ∙ ap (λ (x : Result (Unit {0}) TransferError × World). x.1.files q) (sym h)
        ∙ call-only path io w q e
    go (err x, w') h =
        ap (λ (x : Result (Unit {0}) TransferError × World). x.1.files q) (sym h)
        ∙ call-only path io w q e

pub execute-only : (path : Text) (f : Db → Db) → WritesOnly path (execute f)
execute-only path f =
    bind-only path (call db) (λ _. modify (λ w. record w { db = f w.db })) (call-only path db)
      (λ _ w q e. refl)

read_chunk-only : (path : Text) (left : Bytes) → WritesOnly path (read_chunk left)
unfolding read_chunk
read_chunk-only path left w q e =
    bind-only path (call io) (λ _. gets (λ _. take (min chunk_size (suc (w.short_reads 0))) left))
      (call-only path io) (λ _ v q e. refl) (record w { short_reads = λ n. w.short_reads (suc n) })
      q e

pub hash_chunks-only :
    (path : Text) (fuel : ℕ) (left : Bytes) → WritesOnly path (hash_chunks fuel left)
unfolding hash_chunks
hash_chunks-only path zero left = λ w q e. refl
hash_chunks-only path (suc fuel) left =
    bind-only path (read_chunk left)
      (λ chunk.
        if is_empty chunk
        then give (ok [])
        else (hash_chunks fuel (drop (length chunk) left) >>= λ fed. give (ok (chunk ++ fed))))
      (read_chunk-only path left)
      (λ chunk. one chunk (is_empty chunk) (hash_chunks-only path fuel (drop (length chunk) left)))
  where
    one :
        (chunk : Bytes) (b : Bool)
        → WritesOnly path (hash_chunks fuel (drop (length chunk) left))
        → WritesOnly path (
            if b
            then give (ok [])
            else (hash_chunks fuel (drop (length chunk) left) >>= λ fed. give (ok (chunk ++ fed))))
    one chunk true h = λ w q e. refl
    one chunk false h =
        bind-only path (hash_chunks fuel (drop (length chunk) left))
          (λ fed. give (ok (chunk ++ fed))) h (λ fed w q e. refl)
