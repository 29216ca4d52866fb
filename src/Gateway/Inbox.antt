-- ===== src/Gateway/Inbox.antt =====
-- chat/http_gateway/routes/chat.py: `pull_inbox`. The form holds no `last_max_msg_id` (`none`), one that
-- is no number (`some none`), or a number.
use tiny_chat_microservices.Prelude.{ℕ, String, Option, none, some, List}
use tiny_chat_microservices.Rpc
use tiny_chat_microservices.Rpc.{CallResult, timeout}
use tiny_chat_microservices.Storage.{Row}
use tiny_chat_microservices.Downstream.{
  PullInboxReply, ReadModelStatus, read_model_success, read_model_timeout, read_model_failed,
}

pub data PullBody : Type 0 where
  empty : PullBody
  text : String → PullBody
  messages : List Row → PullBody

pub record PullResponse : Type 0 where
  pub status : ℕ
  pub body : PullBody

abbrev pub answer : ℕ → PullBody → PullResponse
answer status body = record { status = status; body = body }

-- What is answered to a reply; `text` without a status answers 200.
unfoldable pub pull_status : ReadModelStatus → List Row → PullResponse
pull_status read_model_success rows = answer 200 (messages rows)
pull_status read_model_timeout rows = answer 200 (text "Sorry, timeout, try later")
pull_status read_model_failed rows = answer 504 (text "Sorry, timeout, please try it again")
pull_status _ rows = answer 503 (text "Sorry, something wrong, please try it later")

unfoldable pub pull_result : CallResult PullInboxReply → PullResponse
unfolding pull_status
pull_result (Rpc.success reply) = pull_status reply.status reply.messages
pull_result (Rpc.failure timeout i) = answer 504 empty
pull_result (Rpc.failure _ i) = answer 400 empty

-- `pull_inbox`
unfoldable pub pull_inbox :
    (uid : ℕ)
    → (last_max_msg_id : Option (Option ℕ))
    → Option ((uid received_max_msg_id : ℕ) → CallResult PullInboxReply)
    → PullResponse
unfolding pull_result
pull_inbox uid none service = answer 400 (text "Missing required field in the form")
pull_inbox uid (some none) service = answer 400 (text "Invalid field value in the form")
pull_inbox uid (some (some last)) none = answer 500 empty
pull_inbox uid (some (some last)) (some service) = pull_result (service uid last)
