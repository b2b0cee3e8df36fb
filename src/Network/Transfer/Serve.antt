-- ===== src/Network/Transfer/Serve.antt =====
-- network/transfer.rs: the side that has the files.
pub mod Access
pub mod Batch
pub mod Chunks
pub mod Replies
use synapt.Prelude.{
  ℕ, zero, suc, ◌+◌, Bool, true, false, ◌||◌, Option, none, some, List, [], ◌∷◌, map, length, drop,
  is_empty, ◌++◌, Text, codes, text_eq, ltb, ok, err, ok_or, not, if◌then◌else◌,
}
use synapt.Network.Crypto.{Bytes, Primitives}
use synapt.Network.Transfer.{
  io, TransferMsg, transfer_start, transfer_complete, file_skipped, batch_complete, error, MsgJson,
  Action, ◌>>=◌, ◌>>◌, give, call, query, send, read_chunk, file_name_or,
}
use synapt.Storage.Devices.{get_shared_dirs}
use synapt.Trust.{lower_hex}

-- `Path::starts_with`, on the components of canonical paths
unfoldable pub starts_with : List Text → List Text → Bool
starts_with path [] = true
starts_with [] (d ∷ dir) = false
starts_with (c ∷ path) (d ∷ dir) = if text_eq c d then starts_with path dir else false

-- `std::fs::canonicalize` gives the components of the path, or none where it fails.
module _ (canonicalize : Text → Option (List Text)) where
  unfoldable pub is_under : List Text → List Text → Bool
  unfolding starts_with
  is_under canonical [] = false
  is_under canonical (dir ∷ shared_dirs) = elim (canonicalize dir) [
    | none ↦ is_under canonical shared_dirs
    | some canonical_dir ↦ starts_with canonical canonical_dir || is_under canonical shared_dirs
  ]

  unfoldable pub is_path_allowed : Text → List Text → Bool
  unfolding is_under
  is_path_allowed requested shared_dirs = elim (canonicalize requested) [
    | none ↦ false
    | some canonical ↦ is_under canonical shared_dirs
  ]

  unfoldable pub classify_batch : List Text → List Text → List (Text × Bool)
  classify_batch paths shared_dirs = map (λ p. (p, is_path_allowed p shared_dirs)) paths

-- `File::open`: none where it fails
unfoldable pub open_file : Text → Action (Option Bytes)
open_file path w =
    let opened = call io w in
    elim opened.0 [ ok u ↦ (ok (w.files path), opened.1) | err e ↦ (ok none, opened.1) ]

-- The loop that feeds the hasher: what it was fed. The fuel is for its rounds.
unfoldable pub hash_chunks : ℕ → Bytes → Action Bytes
hash_chunks zero left = give (err io)
hash_chunks (suc fuel) left = do
  chunk ← read_chunk left
  if is_empty chunk
      then give (ok [])
      else do fed ← hash_chunks fuel (drop (length chunk) left); give (ok (chunk ++ fed))

module _ (p : Primitives) where
  unfoldable pub sha256_of_file : Text → Action Text
  unfolding open_file hash_chunks
  sha256_of_file path = do
    opened ← open_file path
    content ← give (ok_or opened io)
    fed ← hash_chunks (suc (length content)) content
    give (ok (lower_hex (p.sha256 fed)))

  module _ (j : MsgJson) (key : Bytes) where
    abbrev pub send_msg : TransferMsg → Action (Unit {0})
    send_msg m = send p key (j.to_vec m)

    -- The loop over the chunks of what is left of the file, with fuel for its rounds.
    unfoldable pub send_chunks : ℕ → Bytes → Action (Unit {0})
    send_chunks zero left = give (err io)
    send_chunks (suc fuel) left = do
      chunk ← read_chunk left
      if is_empty chunk
          then give (ok tt)
          else do send p key chunk; send_chunks fuel (drop (length chunk) left)

    -- What is sent of a file that could be opened, once the offset is known to lie in it.
    unfoldable pub stream_file : Text → ℕ → Bytes → Action (Unit {0})
    unfolding sha256_of_file send_chunks
    stream_file path resume_offset content = do
      checksum ← sha256_of_file path
      call io
      send_msg (transfer_start (file_name_or path) (length content) resume_offset)
      let left = drop resume_offset content
      send_chunks (suc (length left)) left
      send_msg (transfer_complete checksum)

    unfoldable pub serve_opened : Text → ℕ → Option Bytes → Action (Unit {0})
    unfolding stream_file
    serve_opened path resume_offset none = send_msg (error (codes "access_denied"))
    serve_opened path resume_offset (some content) = do
      call io
      if ltb (length content) resume_offset
          then send_msg (error (codes "invalid_offset"))
          else stream_file path resume_offset content

    module _ (canonicalize : Text → Option (List Text)) where
      unfoldable pub serve_one_file : Text → ℕ → Action (Unit {0})
      unfolding open_file serve_opened
      serve_one_file path resume_offset = do
        shared_dirs ← query get_shared_dirs
        if not (is_path_allowed canonicalize path shared_dirs)
            then send_msg (error (codes "access_denied"))
            else do opened ← open_file path; serve_opened path resume_offset opened

      -- The loop over the classified paths, which returns how many it skipped.
      unfoldable pub serve_each : List (Text × Bool) → ℕ → Action ℕ
      serve_each [] skipped = give (ok skipped)
      serve_each ((path, false) ∷ rest) skipped = do
        send_msg (file_skipped path (codes "access_denied"))
        serve_each rest (skipped + 1)
      serve_each ((path, true) ∷ rest) skipped = do serve_one_file path 0; serve_each rest skipped

      unfoldable pub serve_batch : List Text → Action (Unit {0})
      unfolding serve_each classify_batch
      serve_batch paths = do
        shared_dirs ← query get_shared_dirs
        skipped ← serve_each (classify_batch canonicalize paths shared_dirs) 0
        send_msg (batch_complete (length paths) skipped)
