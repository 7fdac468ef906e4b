-- ===== src/Ai/Chat/Tests.antt =====
-- Proposals at concrete documents: a Yjs document is its text, and one proposal is staged.
use meridian_backend.Prelude.{
  ℕ, ◌+◌, List, true, false, none, some, [], ◌∷◌, ◌++◌, ok, err, proposal_gone, ◌≡◌, refl, arith,
}
use meridian_backend.Schema.{Bytes, insert, count_payload}
use meridian_backend.Samples.{shared}
use meridian_backend.Operations.{Generated}
use meridian_backend.Snapshots.{YjsDocs}
use meridian_backend.Redis.{stage_proposal, peek_proposal, consume_proposal}
use meridian_backend.Redis.Memory.{memory, memory-IsLawful, no_keys}
use meridian_backend.Ai.{find_nearest_exact_text, store_updates}
use meridian_backend.Ai.Content.{
  AiOp, insert_op, range_op, delete_range, take, skip, check_content_existence,
}
use meridian_backend.Ai.Chat.{
  StagedProposal, Tools, ChatResult, AiState, verdict, order_ops_for_application,
}
use meridian_backend.Ai.Chat.Ordering.{
  of_rank, AreDescending, order_ops_for_application-AreDescending,
}
use meridian_backend.Ai.Chat.Requests.{accept_proposal}
use meridian_backend.Ai.Chat.Acceptance.{accept_proposal-fails, accept_proposal-once}

abbrev yjs : YjsDocs Bytes
yjs = record {
  new_doc = [];
  apply_update = λ update doc. some (doc ++ update);
  encode_state = λ doc. doc;
  encode_state_vector = λ doc. [];
}

abbrev staged : StagedProposal
staged = record {
  document_id = 10;
  author_id = 1;
  instruction = [];
  operations = insert_op 0 (65 ∷ 66 ∷ []) none ∷ [];
  before = [];
  after = [];
  created_at = 0;
}

abbrev tools : Tools Bytes
tools = record {
  yjs = yjs;
  insert_text = λ position text doc. take position doc ++ text ++ skip position doc;
  delete_text = λ start count doc. take start doc ++ skip (start + count) doc;
  format_text = λ start count attributes doc. doc;
  materialize = λ doc. doc;
  extract_text = λ doc. doc;
  encode_since = λ before doc. doc;
  classify = λ bytes. ok (record { type = insert; payload = count_payload 1; received_clock = 4 });
  similar = λ expected actual. false;
  generate = λ text message. ok [];
  judge_scope = λ message ops current after. verdict true none;
  stringify = λ p. "proposal";
  parse = λ raw. staged;
  max_doc_chars = 60000;
  truncation_notice = [];
  proposal_ttl_seconds = 900;
  queue_is_up = true;
}

abbrev generated : ℕ → Generated
generated n = record { id = n + 20; sequence = n + 30; outbox_id = n + 100; now = 60 }

abbrev start : AiState memory
start = record {
  database = shared;
  keys = stage_proposal memory 0 3 "proposal" 900 no_keys;
  queued = [];
}

abbrev result : ChatResult
result = record { operations_applied = 1; rejected_operations = [] }

accepts : (accept_proposal tools generated 5 6 10 1 3 false start).0 ≡ ok result
unfolding accept_proposal stage_proposal peek_proposal consume_proposal order_ops_for_application
    check_content_existence find_nearest_exact_text store_updates
accepts = refl

accept_proposal-once_example :
    accept_proposal tools generated 7 8 10 1 3 true
      (accept_proposal tools generated 5 6 10 1 3 false start).1
    ≡ (err proposal_gone, (accept_proposal tools generated 5 6 10 1 3 false start).1)
accept_proposal-once_example =
    accept_proposal-once memory-IsLawful tools 3 generated generated 5 6 7 8 10 10 1 1 false true
      start result accepts (omega arith)

-- Another user's attempt.
accept_proposal-fails_example :
    (accept_proposal tools generated 5 6 10 2 3 false start).1.database ≡ start.database
unfolding accept_proposal stage_proposal peek_proposal
accept_proposal-fails_example =
    accept_proposal-fails memory-IsLawful tools 3 generated 5 6 10 2 false start refl refl

-- A deletion at 4, and inserts at 4, 9 and 4.
abbrev mixed : List AiOp
mixed =
    insert_op 4 (65 ∷ []) none
    ∷ insert_op 9 (66 ∷ []) none
    ∷ range_op delete_range 4 6 (67 ∷ [])
    ∷ insert_op 4 (68 ∷ []) none
    ∷ []

abbrev from_the_end : List AiOp
from_the_end =
    insert_op 9 (66 ∷ []) none
    ∷ range_op delete_range 4 6 (67 ∷ [])
    ∷ insert_op 4 (65 ∷ []) none
    ∷ insert_op 4 (68 ∷ []) none
    ∷ []

orders_mixed : order_ops_for_application mixed ≡ from_the_end
unfolding order_ops_for_application
orders_mixed = refl

order_ops_for_application-AreDescending_example :
    AreDescending (order_ops_for_application mixed)
    × (of_rank 8 (order_ops_for_application mixed) ≡ of_rank 8 mixed)
order_ops_for_application-AreDescending_example =
    order_ops_for_application-AreDescending mixed 8 refl
