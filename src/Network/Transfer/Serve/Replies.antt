-- ===== src/Network/Transfer/Serve/Replies.antt =====
-- What a request for a file is answered with.
use synapt.Prelude.{
  ℕ, suc, ◌≡◌, refl, sym, ◌∙◌, Bool, true, false, Option, none, some, List, [], ◌∷◌, ◌++◌, length,
  drop, Text, codes, if◌then◌else◌, ltb, arith,
}
use mathlib.Core.Path.{subst}
use synapt.Network.Crypto.{Bytes, Primitives}
use synapt.Network.Transfer.{
  io, db, World, ◌>>◌, call, MsgJson, send, error, transfer_start, transfer_complete, file_name_or,
}
use synapt.Network.Transfer.Delivery.{
  IsCalm, call-calm, bind-ok, After, After-bind, After-quiet, After-imp, After-send,
}
use synapt.Network.Transfer.Serve.{
  open_file, sha256_of_file, send_chunks, stream_file, serve_opened, serve_one_file,
  is_path_allowed,
}
use synapt.Network.Transfer.Serve.Access.{IsShared, is_path_allowed-get_shared_dirs}
use synapt.Network.Transfer.Serve.Chunks.{IsChunking, sha256_of_file-calm, After-send_chunks}
use synapt.Storage.Devices.{get_shared_dirs}
use synapt.Trust.{lower_hex}

module _ (p : Primitives) (j : MsgJson) (key : Bytes) where
  -- A file as it is sent from an offset on: its name and size, its bytes, its digest.
  abbrev pub IsFile : Text → ℕ → Bytes → List Bytes → Type 0
  IsFile path offset content ms =
      (chunks : List Bytes) × IsChunking (drop offset content) chunks
      × (ms
          ≡ j.to_vec (transfer_start (file_name_or path) (length content) offset) ∷ []
            ++ (chunks ++ j.to_vec (transfer_complete (lower_hex (p.sha256 content))) ∷ []))

  After-stream_file :
      (path : Text) (offset : ℕ) (content : Bytes) (w : World)
      → IsCalm w
      → w.files path ≡ some content
      → After p key w (IsFile path offset content) (stream_file p j key path offset content w)
  unfolding stream_file
  After-stream_file path offset content w c f =
      let (w1, hashed, s) = sha256_of_file-calm p key path content w c f in
      let sum = lower_hex (p.sha256 content) in
      let left = drop offset content in
      let start = j.to_vec (transfer_start (file_name_or path) (length content) offset) in
      let stop = j.to_vec (transfer_complete sum) in
      let chunks_then_stop = send_chunks p j key (suc (length left)) left >> send p key stop in
      subst (λ r. After p key w (IsFile path offset content) r)
        (sym (
          bind-ok (sha256_of_file p path)
            (λ x.
              call io
              >> (send p key start
                  >> (send_chunks p j key (suc (length left)) left
                      >> send p key (j.to_vec (transfer_complete x)))))
            w sum w1 hashed
          ∙ bind-ok (call io) (λ _. send p key start >> chunks_then_stop) w1 tt w1
              (call-calm io w1 s.calm)))
        (After-quiet p key w w1 (IsFile path offset content)
          ((send p key start >> chunks_then_stop) w1) s
          (After-bind p key w1 (λ ms. ms ≡ start ∷ []) (IsFile path offset content)
            (send p key start) chunks_then_stop (After-send p key w1 start s.calm)
            (λ w2 ms e s2.
              After-bind p key w2 (IsChunking left) (λ ms'. IsFile path offset content (ms ++ ms'))
                (send_chunks p j key (suc (length left)) left) (send p key stop)
                (After-send_chunks p j key (suc (length left)) left w2 s2.calm (omega arith))
                (λ w3 chunks q s3.
                  After-imp p key w3 (λ ms'. ms' ≡ stop ∷ [])
                    (λ ms'. IsFile path offset content (ms ++ (chunks ++ ms'))) (send p key stop w3)
                    (λ ms' e'. (chunks, q, rw (e, e') refl)) (After-send p key w3 stop s3.calm)))))

  -- The answers to a request, as the source documents them.
  abbrev pub IsReply : Bool → Option Bytes → Text → ℕ → List Bytes → Type 0
  IsReply false file path offset ms = ms ≡ j.to_vec (error (codes "access_denied")) ∷ []
  IsReply true none path offset ms = ms ≡ j.to_vec (error (codes "access_denied")) ∷ []
  IsReply true (some content) path offset ms =
      if ltb (length content) offset
      then ms ≡ j.to_vec (error (codes "invalid_offset")) ∷ []
      else IsFile path offset content ms

  After-serve_opened :
      (path : Text) (offset : ℕ) (file : Option Bytes) (w : World)
      → IsCalm w
      → w.files path ≡ file
      → After p key w (IsReply true file path offset) (serve_opened p j key path offset file w)
  unfolding serve_opened
  After-serve_opened path offset none w c f =
      After-send p key w (j.to_vec (error (codes "access_denied"))) c
  After-serve_opened path offset (some content) w c f =
      subst (λ r. After p key w (IsReply true (some content) path offset) r)
        (sym (
          bind-ok (call io)
            (λ _.
              if ltb (length content) offset
              then send p key (j.to_vec (error (codes "invalid_offset")))
              else stream_file p j key path offset content)
            w tt w (call-calm io w c)))
        (go (ltb (length content) offset) refl)
    where
      go :
          (b : Bool)
          → ltb (length content) offset ≡ b
          → After p key w
              (λ ms.
                if b
                then ms ≡ j.to_vec (error (codes "invalid_offset")) ∷ []
                else IsFile path offset content ms)
              ((if b
                  then send p key (j.to_vec (error (codes "invalid_offset")))
                  else stream_file p j key path offset content)
                w)
      go true e = After-send p key w (j.to_vec (error (codes "invalid_offset"))) c
      go false e = After-stream_file path offset content w c f

  module _ (canonicalize : Text → Option (List Text)) where
    serve_one_file-eq :
        (path : Text) (offset : ℕ) (w : World) (b : Bool)
        → IsCalm w
        → is_path_allowed canonicalize path (get_shared_dirs w.db) ≡ b
        → serve_one_file p j key canonicalize path offset w ≡ (
            if b
            then serve_opened p j key path offset (w.files path) w
            else send p key (j.to_vec (error (codes "access_denied"))) w)
    unfolding serve_one_file open_file
    serve_one_file-eq path offset w true c e = ground (arith, call-calm db w c, call-calm io w c, e)
    serve_one_file-eq path offset w false c e = ground (arith, call-calm db w c, e)

    pub IsReply-serve_one_file :
        (path : Text) (offset : ℕ) (w : World)
        → IsCalm w
        → After p key w
            (IsReply
              (is_path_allowed canonicalize path (get_shared_dirs w.db))
              (w.files path)
              path
              offset)
            (serve_one_file p j key canonicalize path offset w)
    IsReply-serve_one_file path offset w c =
        go (is_path_allowed canonicalize path (get_shared_dirs w.db)) refl
      where
        go :
            (b : Bool)
            → is_path_allowed canonicalize path (get_shared_dirs w.db) ≡ b
            → After p key w
                (IsReply b (w.files path) path offset)
                (serve_one_file p j key canonicalize path offset w)
        go true e =
            subst (λ r. After p key w (IsReply true (w.files path) path offset) r)
              (sym (serve_one_file-eq path offset w true c e))
              (After-serve_opened path offset (w.files path) w c refl)
        go false e =
            subst (λ r. After p key w (IsReply false (w.files path) path offset) r)
              (sym (serve_one_file-eq path offset w false c e))
              (After-send p key w (j.to_vec (error (codes "access_denied"))) c)

    -- The answer to a path, by the directories that are shared and the file that stands there.
    abbrev pub IsAnswer : Text → List Text → Option Bytes → ℕ → List Bytes → Type 0
    IsAnswer path shared_dirs file offset ms =
        (IsShared canonicalize path shared_dirs → IsReply true file path offset ms)
        × (¬ (IsShared canonicalize path shared_dirs)
            → ms ≡ j.to_vec (error (codes "access_denied")) ∷ [])

    IsAnswer-IsReply :
        (path : Text) (offset : ℕ) (w : World) (ms : List Bytes) (b : Bool)
        → is_path_allowed canonicalize path (get_shared_dirs w.db) ≡ b
        → IsReply b (w.files path) path offset ms
        → IsAnswer path w.db.shared_dirs (w.files path) offset ms
    IsAnswer-IsReply path offset w ms true e reply = (
      λ shared. reply,
      λ hidden. absurd (hidden ((is_path_allowed-get_shared_dirs canonicalize path w.db).0 e)),
    )
    IsAnswer-IsReply path offset w ms false e reply = (
      λ shared.
          let t = (is_path_allowed-get_shared_dirs canonicalize path w.db).1 shared in
          absurd (ground (arith, e, t)),
      λ hidden. reply,
    )

    -- Where no call of the system fails, serving a file either sends exactly one answer, or ends
    -- with an error of the session. The answer to a path outside the shared directories or to a
    -- file that cannot be opened is a refusal, and so is that to an offset past the end. Otherwise
    -- it is the file: its name and size, its bytes from the offset on in chunks, and the digest of
    -- the whole of it.
    pub serve_one_file_lem :
        (path : Text) (offset : ℕ) (w : World)
        → IsCalm w
        → After p key w
            (IsAnswer path w.db.shared_dirs (w.files path) offset)
            (serve_one_file p j key canonicalize path offset w)
    serve_one_file_lem path offset w c =
        After-imp p key w
          (IsReply (is_path_allowed canonicalize path (get_shared_dirs w.db)) (w.files path) path
            offset)
          (IsAnswer path w.db.shared_dirs (w.files path) offset)
          (serve_one_file p j key canonicalize path offset w)
          (λ ms.
            IsAnswer-IsReply path offset w ms
              (is_path_allowed canonicalize path (get_shared_dirs w.db)) refl)
          (IsReply-serve_one_file path offset w c)
