-- ===== src/Network/RemoteSearch/Examples.antt =====
-- A device that knows a laptop, shares a directory and has one application.
use synapt.Prelude.{ℕ, ◌≡◌, refl, true, some, none, [], ◌∷◌, ◌++◌, All, codes, ok, text_eq, text_lt}
use synapt.Prelude.Sort.{sort_by}
use synapt.Network.Crypto.{decrypt, read_frame_len, static_dh, session_key, from_b64}
use synapt.Network.Crypto.Examples.{toy}
use synapt.Network.RemoteSearch.{
  System, search_request, launch_request, respond, handle_search_conn, serve_request, reply,
  handle_launch_request, resolve_launch_exec,
}
use synapt.Network.RemoteSearch.Disclosure.{IsDisclosed, IsIndexed, respond_lem}
use synapt.Network.RemoteSearch.Launches.{IsAuthorised, commands, handle_search_conn_lem}
use synapt.Network.Session.{session_handshake_server, answer_peer}
use synapt.Network.Session.Examples.{json, desktop, row, greeting, nonce}
use synapt.Network.Stream.{
  TcpStream, read_enc, write_enc, read_plain, write_plain, read_exact, check_len,
}
use synapt.Network.Transfer.{split}
use synapt.Search.Engine.{SearchEngine}
use synapt.Search.Engine.Examples.{hundreds, listed, calls, engine}
use synapt.Storage.Devices.{get_trusted_peers}
use synapt.Storage.Devices.Trust.{find_peer}
use synapt.Storage.Catalog.{app_exec_by_source_path}
use synapt.Storage.Rows.{Db, select}

abbrev sys : System ℕ
sys = record {
  to_vec = λ m. [];
  from_slice = λ b. some (launch_request b);
  canonicalize = λ t. some (split t);
  read_icon = λ t. none;
  to_lowercase = λ t. t;
  encode = λ b. b;
  launch_app = λ t. ok tt;
}

abbrev store : Db
store = record engine.db { trusted_peers = row ∷ []; shared_dirs = codes "/d" ∷ [] }

abbrev known : SearchEngine hundreds listed calls
known = record engine { db = store }

-- What the laptop sends: its greeting, and the launch of "/a" under the session key.
abbrev asked : TcpStream
asked = record {
  received = greeting ++ (47 ∷ 0 ∷ 0 ∷ 0 ∷ (codes "twelve bytes" ++ ((96 ∷ nonce) ++ codes "/a")));
  sent = [];
  room = 1000;
}

respond_example :
    IsDisclosed sys store
      (respond sys hundreds listed calls true known (search_request (codes "a") 2)).0
    × All
        (IsIndexed sys store (search_request (codes "a") 2))
        (respond sys hundreds listed calls true known (search_request (codes "a") 2)).2
respond_example = respond_lem sys hundreds listed calls true known (search_request (codes "a") 2)

handle_search_conn_example :
    All
      (IsAuthorised sys hundreds listed calls true toy json desktop nonce
        (codes "twelve bytes")
        known
        asked)
      (commands sys hundreds listed calls true toy json desktop nonce
        (codes "twelve bytes")
        known
        asked)
handle_search_conn_example =
    handle_search_conn_lem sys hundreds listed calls true toy json desktop nonce
      (codes "twelve bytes") known asked

-- The application is found under its path, and its command is run.
launched :
    commands sys hundreds listed calls true toy json desktop nonce
      (codes "twelve bytes")
      known
      asked
    ≡ codes "run" ∷ []
unfolding handle_search_conn serve_request respond reply handle_launch_request resolve_launch_exec
    session_handshake_server answer_peer read_enc write_enc read_plain write_plain read_exact
    check_len decrypt read_frame_len static_dh session_key from_b64 get_trusted_peers find_peer
    app_exec_by_source_path select text_eq text_lt sort_by
launched = refl
