-- ===== src/Network/Transfer/Examples.antt =====
-- The theorems about transfers at concrete files.
use synapt.Prelude.{
  ℕ, zero, suc, ◌≡◌, refl, ap, ◌∙◌, true, Option, none, some, List, [], ◌∷◌, ◌++◌, Text, codes,
  text_eq, pos, ok, if◌then◌else◌, arith,
}
use synapt.Network.Crypto.{Bytes, encrypt}
use synapt.Network.Crypto.Examples.{toy}
use synapt.Network.Session.Examples.{json, laptop}
use synapt.Network.Stream.{TcpStream, write_enc, read_enc, write_plain}
use synapt.Network.Stream.Roundtrip.{write_enc_appends}
use synapt.Network.Transfer.{
  join, TransferMsg, transfer_request, batch_transfer_request, transfer_start, transfer_complete,
  file_skipped, batch_complete, push_start, push_accept, error, MsgJson, World,
}
use synapt.Network.Transfer.Delivery.{IsCalm, After, Delivers}
use synapt.Network.Transfer.Serve.{serve_one_file, serve_batch}
use synapt.Network.Transfer.Serve.Replies.{IsAnswer, serve_one_file_lem}
use synapt.Network.Transfer.Serve.Batch.{IsBatch, serve_batch_lem}
use synapt.Network.Transfer.Request.{conclude, download}
use synapt.Network.Transfer.Request.Conclusion.{IsConclusion, conclude_lem}
use synapt.Network.Transfer.Request.Download.{local_of, download_lem}
use synapt.Storage.Rows.{Db, TransferHistoryRow}
use synapt.Storage.Devices.{get_shared_dirs}
use synapt.Storage.Examples.{empty_db}
use synapt.Storage.History.Laws.{find_transfer}
use synapt.Trust.{lower_hex}

-- A code of the messages: two texts with their end marked, lists of texts, and numbers as they are.
abbrev marked : Text → Bytes → Bytes
marked [] rest = 0 ∷ rest
marked (c ∷ t) rest = suc c ∷ marked t rest

abbrev unmarked : Bytes → Text × Bytes
unmarked [] = ([], [])
unmarked (zero ∷ rest) = ([], rest)
unmarked (suc c ∷ rest) = (c ∷ (unmarked rest).0, (unmarked rest).1)

unmarked-marked : (t rest : Bytes) → unmarked (marked t rest) ≡ (t, rest)
unmarked-marked [] rest = refl
unmarked-marked (c ∷ t) rest = ap (λ (r : Text × Bytes). (c ∷ r.0, r.1)) (unmarked-marked t rest)

abbrev all_marked : List Text → Bytes
all_marked [] = []
all_marked (t ∷ ts) = marked t (all_marked ts)

abbrev onto : ℕ → List Text → List Text
onto c [] = (c ∷ []) ∷ []
onto c (t ∷ ts) = (c ∷ t) ∷ ts

abbrev all_unmarked : Bytes → List Text
all_unmarked [] = []
all_unmarked (zero ∷ rest) = [] ∷ all_unmarked rest
all_unmarked (suc c ∷ rest) = onto c (all_unmarked rest)

all_unmarked-marked : (t rest : Bytes) → all_unmarked (marked t rest) ≡ t ∷ all_unmarked rest
all_unmarked-marked [] rest = refl
all_unmarked-marked (c ∷ t) rest = ap (λ (ts : List Text). onto c ts) (all_unmarked-marked t rest)

all_unmarked-all_marked : (ts : List Text) → all_unmarked (all_marked ts) ≡ ts
all_unmarked-all_marked [] = refl
all_unmarked-all_marked (t ∷ ts) =
    all_unmarked-marked t (all_marked ts)
    ∙ ap (λ (r : List Text). t ∷ r) (all_unmarked-all_marked ts)

abbrev to_vec : TransferMsg → Bytes
to_vec (transfer_request path offset) = 0 ∷ offset ∷ path
to_vec (batch_transfer_request paths) = 1 ∷ 0 ∷ all_marked paths
to_vec (transfer_start name size offset) = 2 ∷ size ∷ offset ∷ name
to_vec (transfer_complete checksum) = 3 ∷ 0 ∷ checksum
to_vec (file_skipped path reason) = 4 ∷ 0 ∷ marked path reason
to_vec (batch_complete total skipped) = 5 ∷ total ∷ skipped ∷ []
to_vec (push_start name size checksum) = 6 ∷ size ∷ marked name checksum
to_vec push_accept = 7 ∷ 0 ∷ []
to_vec (error code) = 8 ∷ 0 ∷ code

abbrev from_slice : Bytes → Option TransferMsg
from_slice (zero ∷ offset ∷ path) = some (transfer_request path offset)
from_slice (suc zero ∷ n ∷ paths) = some (batch_transfer_request (all_unmarked paths))
from_slice (suc (suc zero) ∷ size ∷ offset ∷ name) = some (transfer_start name size offset)
from_slice (suc (suc (suc zero)) ∷ n ∷ checksum) = some (transfer_complete checksum)
from_slice (suc (suc (suc (suc zero))) ∷ n ∷ rest) =
    some (file_skipped (unmarked rest).0 (unmarked rest).1)
from_slice (suc (suc (suc (suc (suc zero)))) ∷ total ∷ skipped ∷ rest) =
    some (batch_complete total skipped)
from_slice (suc (suc (suc (suc (suc (suc zero))))) ∷ size ∷ rest) =
    some (push_start (unmarked rest).0 size (unmarked rest).1)
from_slice (suc (suc (suc (suc (suc (suc (suc zero)))))) ∷ rest) = some push_accept
from_slice (suc (suc (suc (suc (suc (suc (suc (suc zero))))))) ∷ n ∷ code) = some (error code)
from_slice _ = none

pub from-to : (m : TransferMsg) → from_slice (to_vec m) ≡ some m
from-to (transfer_request path offset) = refl
from-to (batch_transfer_request paths) =
    ap (λ (ts : List Text). some (batch_transfer_request ts)) (all_unmarked-all_marked paths)
from-to (transfer_start name size offset) = refl
from-to (transfer_complete checksum) = refl
from-to (file_skipped path reason) =
    ap (λ (r : Text × Bytes). some (file_skipped r.0 r.1)) (unmarked-marked path reason)
from-to (batch_complete total skipped) = refl
from-to (push_start name size checksum) =
    ap (λ (r : Text × Bytes). some (push_start r.0 size r.1)) (unmarked-marked name checksum)
from-to push_accept = refl
from-to (error code) = refl

abbrev pub msgs : MsgJson
msgs = record { to_vec = to_vec; from_slice = from_slice; from-to = from-to; unexpected = to_vec }

-- Paths in /d and /e exist.
abbrev canonicalize : Text → Option (List Text)
canonicalize path =
    if text_eq path (codes "/d")
    then some (codes "d" ∷ [])
    else if text_eq path (codes "/d/f")
    then some (codes "d" ∷ codes "f" ∷ [])
    else if text_eq path (codes "/e/f")
    then some (codes "e" ∷ codes "f" ∷ [])
    else none

abbrev row : TransferHistoryRow
row = record {
  peer_device_id = codes "D";
  filename = codes "f";
  remote_path = codes "/d/f";
  local_path = codes "/dl/D/f";
  size = some (pos 3);
  bytes_received = pos 1;
  status = codes "partial";
  started_at = pos 5;
  completed_at = none;
  transfer_id = some (codes "t");
}

abbrev pub home : Db
home = record empty_db {
  shared_dirs = codes "/d" ∷ [];
  transfer_history = (1, row) ∷ [];
  next_transfer = 2;
}

abbrev key : Bytes
key = 5 ∷ []

abbrev nonce : Bytes
nonce = codes "twelve bytes"

abbrev file : Bytes
file = 70 ∷ 71 ∷ 72 ∷ []

abbrev pub world : Bytes → World
world received = record {
  stream = record { received = received; sent = []; room = 1000 };
  db = home;
  queue = record { entries = []; max_history = 10 };
  files = λ path.
      if text_eq path (codes "/d/f")
      then some file
      else if text_eq path (codes "/dl/D/f")
      then some (70 ∷ [])
      else none;
  clock = λ n. pos n;
  nonces = λ n. nonce;
  short_reads = λ n. 1;
  connections = λ n. none;
  hist_id = some 1;
  faults = [];
  emitted = [];
  slept = 0;
}

pub calm : (received : Bytes) → IsCalm (world received)
calm received = record { no_faults = refl; nonces_fit = λ n. refl }

serve_one_file_example :
    After toy key
      (world [])
      (IsAnswer toy msgs key canonicalize (codes "/d/f") home.shared_dirs (some file) 1)
      (serve_one_file toy msgs key canonicalize (codes "/d/f") 1 (world []))
unfolding text_eq
serve_one_file_example =
    serve_one_file_lem toy msgs key canonicalize (codes "/d/f") 1 (world []) (calm [])

serve_batch_example :
    After toy key
      (world [])
      (IsBatch toy msgs key canonicalize
        (get_shared_dirs home)
        (world [])
        2
        0
        (codes "/d/f" ∷ codes "/e/f" ∷ []))
      (serve_batch toy msgs key canonicalize (codes "/d/f" ∷ codes "/e/f" ∷ []) (world []))
serve_batch_example =
    serve_batch_lem toy msgs key canonicalize (codes "/d/f" ∷ codes "/e/f" ∷ []) (world [])
      (calm [])

conclude_example :
    IsConclusion
      (text_eq (lower_hex (213 ∷ [])) (codes "d5"))
      (codes "/d/f")
      file
      1
      3
      (conclude toy msgs key (codes "t") 1 (codes "/d/f") 3 (codes "d5") (world []))
unfolding text_eq find_transfer
conclude_example =
    conclude_lem toy msgs key (codes "t") 1 (codes "/d/f") file 3 (codes "d5") (world []) (calm [])
      ((1, row), refl) refl

abbrev idle : TcpStream
idle = record { received = []; sent = []; room = 100 }

reads_wire :
    (m wire : Bytes) (room : ℕ)
    → write_enc toy nonce key m idle ≡ (ok tt, record { received = []; sent = wire; room = room })
    → (t : TcpStream) (behind : Bytes) → t.received ≡ wire ++ behind
    → read_enc toy key t ≡ (ok m, record t { received = behind })
reads_wire m wire room h t behind r =
    let (frame, sent, reads) =
      write_enc_appends toy nonce key m idle (record { received = []; sent = wire; room = room })
        refl h in
    reads t behind (r ∙ ap (λ (x : Bytes). x ++ behind) sent)

abbrev chunk_wire : Bytes
chunk_wire = 15 ∷ 0 ∷ 0 ∷ 0 ∷ nonce ++ 5 ∷ 71 ∷ 72 ∷ []

abbrev stop_wire : Bytes
stop_wire = 17 ∷ 0 ∷ 0 ∷ 0 ∷ nonce ++ 5 ∷ 3 ∷ 0 ∷ codes "d5"

delivered :
    Delivers toy key
      ((71 ∷ 72 ∷ []) ∷ to_vec (transfer_complete (lower_hex (213 ∷ []))) ∷ [])
      (chunk_wire ++ stop_wire)
unfolding write_enc encrypt write_plain lower_hex
delivered = (
  chunk_wire,
  stop_wire,
  refl,
  reads_wire (71 ∷ 72 ∷ []) chunk_wire 81 refl,
  (
    stop_wire,
    [],
    refl,
    reads_wire (to_vec (transfer_complete (lower_hex (213 ∷ [])))) stop_wire 79 refl,
    refl,
  ),
)

download_example :
    IsConclusion true
      (local_of toy msgs json laptop
        (codes "t")
        (codes "D")
        (codes "/d/f")
        (codes "/dl")
        (codes "D")
        (codes "f"))
      file
      1
      3
      (download toy msgs json laptop
        (codes "t")
        (codes "D")
        (codes "/d/f")
        (codes "/dl")
        (codes "D")
        key
        (pos 0)
        (codes "f")
        3
        1
        (world (chunk_wire ++ stop_wire)))
unfolding text_eq find_transfer join
download_example =
    download_lem toy msgs json laptop (codes "t") (codes "D") (codes "/d/f") (codes "/dl")
      (codes "D") key file (chunk_wire ++ stop_wire) [] ((71 ∷ 72 ∷ []) ∷ []) (pos 0) (codes "f") 1
      (world (chunk_wire ++ stop_wire)) (calm (chunk_wire ++ stop_wire)) ((1, row), refl) refl
      (omega arith) (refl, ((omega arith, omega arith), tt)) delivered refl
