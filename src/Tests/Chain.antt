-- ===== src/Tests/Chain.antt =====
-- The theorems on the program in the folder indexer at concrete inputs.
use mathlib.Core.List.{map}
use egvm.Prelude.{
  ℕ, zero, suc, ◌+◌, ◌≡◌, ◌≢◌, refl, true, Option, none, some, List, [], ◌∷◌, ◌++◌, append_assoc,
  append-nil,
}
use egvm.Outcome.{ok}
use egvm.Bytes.{Bytes, equal_bytes}
use egvm.Hash.{Hasher}
use egvm.Indexer.Context.{
  BlockForContract, Block, Transaction, ContextLib, Context, Line, byte_slice, text,
  get_block_for_contract, select_txs, handle_block, new_context, write_hasher, write_line,
  write_log, write_file,
}
use egvm.Indexer.Context.Blocks.{seen, collect_some, get_block_for_contract_exact}
use egvm.Indexer.Context.Logs.{handle_blocks}
use egvm.Indexer.DataFetcher.Fresh.{start-new_context}
use egvm.Indexer.Context.Restart.{new_context_from_recover_file, recovery_never_returns}
use egvm.Indexer.DataFetcher.{
  ChainLib, Answers, DataFetcher, start, round, accept, rotate, rotate_list, dump_if_due,
}
use egvm.Indexer.DataFetcher.Trust.{IsChain, start-IsChain}
use egvm.Http.{Response, no_response, response}
use egvm.Indexer.Servers.{
  RpcLib, contains, has_prefix, by_number, answer_of, get_signed_header_by_number,
  get_validators_by_number, get_block_by_number, get_signed_header, get_validators, get_block,
}
use egvm.Indexer.Servers.Attempts.{IsHealthy, healthy_server_ends}

abbrev keeping : Hasher
keeping = record {
  State = Bytes;
  fresh = [];
  write = λ h bz. h ++ bz;
  sum = λ h. h;
  write_append = append_assoc;
  write_nil = append-nil;
}

-- A transaction of one byte: 0 does not decode, 1 creates a contract, and any other goes to the
-- contract [ 7 ] from the sender [ 8 ].
abbrev decode : Bytes → Option Transaction
decode [] = none
decode (b ∷ rest) = elim b [
  | zero ↦ none
  | suc c ↦ elim c [
    | zero ↦ some (record { to = none; tx_data = [] })
    | suc d ↦ some (record { to = some (7 ∷ []); tx_data = rest })
  ]
]

abbrev height_line : BlockForContract → Bytes
height_line b = b.height ∷ []

-- A script that counts its blocks and gives each line back.
abbrev line_bytes : Line → Bytes
line_bytes (byte_slice bz) = bz
line_bytes (text bz) = bz

abbrev context_lib : ContextLib
context_lib = record {
  decode_rlp = decode;
  sender = λ tx. some (8 ∷ []);
  marshal_block = height_line;
  VM = ℕ;
  handle_block_func = λ vm line. (vm + 1, line_bytes line);
  sha256 = keeping;
  verify_signature = λ hash signature. true;
  unmarshal_context = λ json. some (record {
    input_log_hash = [];
    output_log_hash = [];
    input_log_size = 0;
    output_log_size = 0;
  });
  trimmed_lines = λ content. [];
}

abbrev calls : Block
calls = record { height = 5; unix_milli = 6; txs = (0 ∷ []) ∷ (2 ∷ []) ∷ [] }

abbrev creation : Block
creation = record { height = 5; unix_milli = 6; txs = (0 ∷ []) ∷ (1 ∷ []) ∷ (2 ∷ []) ∷ [] }

get_block_for_contract_exact_example :
    get_block_for_contract context_lib (7 ∷ []) calls
    ≡ ok (record {
      height = 5;
      timestamp = 6;
      tx_list = collect_some (λ raw. seen context_lib (7 ∷ []) (decode raw)) calls.txs;
    })
get_block_for_contract_exact_example =
    get_block_for_contract_exact context_lib (7 ∷ []) calls (tt, ((7 ∷ [], refl), tt))

-- Logs that can be written, and hashers that were written what is in them.
abbrev synced : ℕ → Bytes → Bytes → Context context_lib
synced vm input output = record {
  vm = vm;
  input_log = some (record { content = input; writable = true });
  output_log = some (record { content = output; writable = true });
  input_log_hasher = some input;
  output_log_hasher = some output;
}

recovery_never_returns_example :
    ¬ (new_context_from_recover_file context_lib 0 none [] [] ≡ ok (synced 0 [] []))
recovery_never_returns_example = recovery_never_returns context_lib 0 none [] [] (synced 0 [] [])

-- Headers are their heights, and the blocks are at these heights.
abbrev pub chain_lib : ChainLib
chain_lib = record {
  SignedHeader = ℕ;
  height_of = λ h. h;
  Validators = Unit {0};
  ValidatorSet = Unit {0};
  validator_set = λ vs. vs;
  validate_basic = λ chain_id h vs. true;
  light_hash = λ h vs. h ∷ [];
  verify_adjacent = λ trusted h vs period now drift. true;
  TmBlock = ℕ;
  view = λ h. record { height = h; unix_milli = 0; txs = [] };
  block_hash = λ h. h ∷ [];
}

abbrev pub honest : Answers chain_lib
honest = record {
  get_signed_header = λ addrs h. h;
  get_validators = λ addrs h. tt;
  get_block = λ addrs h. h;
  now = 0;
}

abbrev pub behind_by_one : Answers chain_lib
behind_by_one = record {
  get_signed_header = λ addrs h. 0;
  get_validators = λ addrs h. tt;
  get_block = λ addrs h. h;
  now = 0;
}

abbrev fetcher : ℕ → Context context_lib → DataFetcher chain_lib context_lib
fetcher height ctx = record {
  tm_server_addr_list = (1 ∷ []) ∷ [];
  latest_trusted_header = height;
  contract_address = 7 ∷ [];
  ctx = ctx;
}

abbrev first_context : Context context_lib
first_context = synced 0 [] []

abbrev last_context : Context context_lib
last_context = synced 2 (4 ∷ 10 ∷ 5 ∷ 10 ∷ []) (4 ∷ 10 ∷ 5 ∷ 10 ∷ [])

ran :
    start chain_lib context_lib (fetcher 3 first_context) (honest ∷ behind_by_one ∷ honest ∷ [])
    ≡ ok (fetcher 5 last_context)
unfolding start round accept rotate rotate_list dump_if_due handle_block get_block_for_contract
    select_txs write_hasher write_line write_log write_file equal_bytes
ran = refl

start-IsChain_example :
    (blks : List ℕ) × IsChain chain_lib 3 blks 5
    × (handle_blocks context_lib first_context (7 ∷ []) (map chain_lib.view blks) ≡ ok last_context)
start-IsChain_example =
    start-IsChain chain_lib context_lib (fetcher 3 first_context) (fetcher 5 last_context)
      (honest ∷ behind_by_one ∷ honest ∷ []) ran

-- The servers are behind, or give the next block.
start-new_context_example :
    ((fetcher 3 (new_context context_lib 0 [] [])).latest_trusted_header ≡ 3)
    × (new_context context_lib 0 [] [] ≡ new_context context_lib 0 [] [])
unfolding start round rotate rotate_list
start-new_context_example =
    start-new_context chain_lib context_lib 0 [] [] (fetcher 3 (new_context context_lib 0 [] []))
      (fetcher 3 (new_context context_lib 0 [] [])) (behind_by_one ∷ behind_by_one ∷ []) refl refl

-- Servers that answer with status 200, or with a nil response at the attempts numbered 0.
abbrev up_or_down : ℕ → Response
up_or_down zero = no_response
up_or_down (suc n) = response 200 (some [])

abbrev rpc_of : (ℕ → Bytes → Response) → RpcLib
rpc_of get = record {
  get = get;
  unmarshal_rpc = λ body. some body;
  SignedHeader = ℕ;
  Validators = ℕ;
  TmBlock = ℕ;
  unmarshal_commit = λ bz. some 1;
  unmarshal_validators = λ bz. some 2;
  unmarshal_block = λ bz. some 3;
}

abbrev flaky : RpcLib
flaky = rpc_of (λ attempt url. up_or_down attempt)

abbrev steady : RpcLib
steady = rpc_of (λ attempt url. response 200 (some []))

-- ":8545"
abbrev listed_addr : Bytes
listed_addr = 58 ∷ 56 ∷ 53 ∷ 52 ∷ 53 ∷ []

-- ":443"
abbrev unlisted_addr : Bytes
unlisted_addr = 58 ∷ 52 ∷ 52 ∷ 51 ∷ []

header-IsHealthy : IsHealthy steady (get_signed_header_by_number steady 5) listed_addr
unfolding get_signed_header_by_number by_number answer_of
header-IsHealthy attempt = (1, refl)

validators-IsHealthy : IsHealthy steady (get_validators_by_number steady 5) listed_addr
unfolding get_validators_by_number by_number answer_of
validators-IsHealthy attempt = (2, refl)

block-IsHealthy : IsHealthy steady (get_block_by_number steady 5) listed_addr
unfolding get_block_by_number by_number answer_of
block-IsHealthy attempt = (3, refl)

steady_responds : ℕ → (url : Bytes) → response 200 (some []) ≢ no_response
steady_responds t url e = cc e

healthy_server_ends_example :
    let addrs = unlisted_addr ∷ listed_addr ∷ [] in
    (header : ℕ) × (validators : ℕ) × (blk : ℕ) × (get_signed_header steady 1 0 addrs 5
      ≡ ok (some header))
    × (get_validators steady 1 0 addrs 5 ≡ ok (some validators))
    × (get_block steady 1 0 addrs 5 ≡ ok (some blk))
unfolding contains has_prefix
healthy_server_ends_example =
    healthy_server_ends steady 0 0 5 listed_addr (unlisted_addr ∷ []) [] steady_responds refl
      header-IsHealthy validators-IsHealthy block-IsHealthy
