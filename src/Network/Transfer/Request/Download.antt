-- ===== src/Network/Transfer/Request/Download.antt =====
-- A file that the other side sends whole is received whole.
use synapt.Prelude.{
  ℕ, ◌-◌, ◌≤◌, ◌≡◌, sym, ap, ◌∙◌, true, Option, some, List, [], ◌∷◌, ◌++◌, append_assoc, length,
  take, drop, take-append-drop, length-take_eq, length-append, Text, text_eq_refl, ℤ, ok, arith,
}
use mathlib.Core.Path.{subst}
use synapt.Network.Crypto.{Bytes, Primitives}
use synapt.Network.Queue.{in_progress, push}
use synapt.Network.Stream.{TcpStream}
use synapt.Network.Session.{Json}
use synapt.Network.Transfer.{io, World, call, recv, join, MsgJson, transfer_complete}
use synapt.Network.Transfer.Delivery.{IsCalm, call-calm, Delivers, Delivers-split}
use synapt.Network.Transfer.Serve.Chunks.{concat, IsChunking}
use synapt.Network.Transfer.Request.{
  new_row, queue_entry, open_for_writing, history_row, ended, receive_chunks, conclude, download,
}
use synapt.Network.Transfer.Request.Receive.{
  IsHeld, receive_chunks-delivered, recv-delivered, after_recv,
}
use synapt.Network.Transfer.Request.Conclusion.{IsConclusion, conclude_lem}
use synapt.Storage.Rows.{TransferHistoryRow}
use synapt.Trust.{LocalIdentity, lower_hex}
use synapt.Network.Transfer.Request.Opening.{
  HasHistory, HasPart, row_id, opened, open_for_writing-calm, opened-part, history_row-IsCalm,
}

-- The chunks of the file and then the message that ends it.
received-all :
    (p : Primitives) (j : MsgJson) (key : Bytes) (transfer_id : Text) (id : ℕ)
    (content bytes behind : Bytes) (chunks : List Bytes) (local : Text) (offset : ℕ) (w : World)
    → IsCalm w
    → IsHeld w.db id
    → w.files local ≡ some (take offset content)
    → offset ≤ length content
    → IsChunking (drop offset content) chunks
    → Delivers p key
        (chunks ++ j.to_vec (transfer_complete (lower_hex (p.sha256 content))) ∷ [])
        bytes
    → w.stream.received ≡ bytes ++ behind
    → (w4 : World) × (w5 : World) × (receive_chunks p j key transfer_id id
          (length content - offset)
          local
          (length content)
          offset
          w
        ≡ (ok (length content), w4))
      × IsCalm w4
      × (recv p key w4 ≡ (ok (j.to_vec (transfer_complete (lower_hex (p.sha256 content)))), w5))
      × IsCalm w5
      × IsHeld w5.db id
      × (w5.files local ≡ some content)
received-all p j key transfer_id id content bytes behind chunks local offset w c h f small
      (whole, sizes) d r =
    let stop = j.to_vec (transfer_complete (lower_hex (p.sha256 content))) in
    let (first, second, e, d1, d2) = Delivers-split p key chunks (stop ∷ []) bytes d in
    let (frame, rest, e2, reads, none_left) = d2 in
    let n : length (take offset content) ≡ offset = length-take_eq offset content small in
    let all : take offset content ++ concat chunks ≡ content =
      ap (λ (x : Bytes). take offset content ++ x) whole ∙ take-append-drop offset content in
    let (w4, got, is) =
      receive_chunks-delivered p j key transfer_id id (length content - offset) (length content)
        local (take offset content) chunks first (second ++ behind) w c h f d1
        (r ∙ ap (λ (x : Bytes). x ++ behind) e ∙ append_assoc first second behind) sizes
        (sym (length-append (take offset content) (concat chunks))
          ∙ ap (λ (x : Bytes). length x) all)
        (omega (arith, n)) in
    (
      w4,
      after_recv p j key transfer_id id w4 (rest ++ behind),
      ap
            (λ (k : ℕ).
              receive_chunks p j key transfer_id id (length content - offset) local (length content)
                k w)
            (sym n)
          ∙ got,
      is.calm,
      recv-delivered p j key transfer_id id stop frame (rest ++ behind) w4 reads
          (is.waiting ∙ ap (λ (x : Bytes). x ++ behind) e2 ∙ append_assoc frame rest behind),
      record { no_faults = is.calm.no_faults; nonces_fit = is.calm.nonces_fit },
      is.held,
      is.written_file ∙ ap (λ (x : Bytes). some x) all,
    )

module _ (p : Primitives) (j : MsgJson) (sj : Json) (identity : LocalIdentity)
    (transfer_id peer_device_id remote_path download_dir peer_name : Text) where
  abbrev pub local_of : Text → Text
  local_of filename = join (join download_dir peer_name) filename

  abbrev row_of : Text → ℕ → ℕ → ℤ → TransferHistoryRow
  row_of filename size offset =
      new_row p j sj identity transfer_id peer_device_id remote_path download_dir peer_name filename
        (local_of filename) size offset

  abbrev shown : Text → ℕ → ℕ → ℤ → World → World
  shown filename size offset started_at w = record w {
    queue = push w.queue (
        queue_entry p j sj identity transfer_id peer_device_id remote_path download_dir peer_name
          filename in_progress offset size started_at);
  }

  -- The steps of a download, one after the other.
  download-steps :
      (key : Bytes) (started_at : ℤ) (filename sum : Text) (size offset n id : ℕ)
      (w w1 w2 w4 w5 : World)
      → call io w ≡ (ok tt, w)
      → open_for_writing (local_of filename) offset w ≡ (ok tt, w1)
      → call io w1 ≡ (ok tt, w1)
      → history_row (row_of filename size offset) w1 ≡ (ok id, w2)
      → receive_chunks p j key transfer_id id
          (size - offset)
          (local_of filename)
          size
          offset
          (shown filename size offset started_at w2)
        ≡ (ok n, w4)
      → call io w4 ≡ (ok tt, w4)
      → recv p key w4 ≡ (ok (j.to_vec (transfer_complete sum)), w5)
      → download p j sj identity transfer_id peer_device_id remote_path download_dir peer_name key
          started_at filename size offset w
        ≡ conclude p j key transfer_id id (local_of filename) n sum w5
  unfolding download ended
  download-steps key started_at filename sum size offset n id w w1 w2 w4 w5 h1 h2 h3 h4 h5 h6 h7 =
      ground (arith, h1, h2, h3, h4, h5, h6, h7, j.from-to (transfer_complete sum))

  concluded :
      (key content : Bytes) (started_at : ℤ) (filename : Text) (offset id : ℕ) (w w5 : World)
      → download p j sj identity transfer_id peer_device_id remote_path download_dir peer_name key
          started_at filename
          (length content)
          offset
          w
        ≡ conclude p j key transfer_id id
            (local_of filename)
            (length content)
            (lower_hex (p.sha256 content))
            w5
      → IsCalm w5
      → IsHeld w5.db id
      → w5.files (local_of filename) ≡ some content
      → IsConclusion true (local_of filename) content id (length content) (
          download p j sj identity transfer_id peer_device_id remote_path download_dir peer_name key
            started_at filename
            (length content)
            offset
            w)
  concluded key content started_at filename offset id w w5 e c h f =
      let sum = lower_hex (p.sha256 content) in
      subst (λ r. IsConclusion true (local_of filename) content id (length content) r) (sym e)
        (subst
          (λ b.
            IsConclusion b (local_of filename) content id (length content)
              (conclude p j key transfer_id id (local_of filename) (length content) sum w5))
          (text_eq_refl sum)
          (conclude_lem p j key transfer_id id (local_of filename) content (length content) sum w5 c
            h f))

  -- Where no call of the system fails: when the other side sends a file from an offset on, in
  -- chunks, and then its digest, and the bytes before the offset are already there, the download
  -- leaves exactly that file, and marks as complete, with all of its bytes, the row that is retried
  -- or, without one, the row of the next id.
  pub download_lem :
      (key content bytes behind : Bytes) (chunks : List Bytes) (started_at : ℤ) (filename : Text)
      (offset : ℕ) (w : World)
      → IsCalm w
      → HasHistory w.hist_id w.db
      → HasPart offset content (w.files (local_of filename))
      → offset ≤ length content
      → IsChunking (drop offset content) chunks
      → Delivers p key
          (chunks ++ j.to_vec (transfer_complete (lower_hex (p.sha256 content))) ∷ [])
          bytes
      → w.stream.received ≡ bytes ++ behind
      → IsConclusion true (local_of filename) content (row_id w.hist_id w.db) (length content) (
          download p j sj identity transfer_id peer_device_id remote_path download_dir peer_name key
            started_at filename
            (length content)
            offset
            w)
  download_lem key content bytes behind chunks started_at filename offset w c h part small is d r =
      let local = local_of filename in
      let size = length content in
      let sum = lower_hex (p.sha256 content) in
      let w1 = opened local offset w in
      let c1 : IsCalm w1 = record { no_faults = c.no_faults; nonces_fit = c.nonces_fit } in
      let id = row_id w.hist_id w.db in
      let (w2, row, c2, f2, s2, h2) = history_row-IsCalm (row_of filename size offset) w1 c1 h in
      let w3 = shown filename size offset started_at w2 in
      let c3 : IsCalm w3 = record { no_faults = c2.no_faults; nonces_fit = c2.nonces_fit } in
      let (w4, w5, got, c4, last, c5, h5, f5) =
        received-all p j key transfer_id id content bytes behind chunks local offset w3 c3 h2
          (ap (λ (g : Text → Option Bytes). g local) f2 ∙ opened-part local offset content w part)
          small is d (ap (λ (s : TcpStream). s.received) s2 ∙ r) in
      concluded key content started_at filename offset id w w5
        (download-steps key started_at filename sum size offset size id w w1 w2 w4 w5
          (call-calm io w c) (open_for_writing-calm local offset w c) (call-calm io w1 c1) row got
          (call-calm io w4 c4) last)
        c5 h5 f5
