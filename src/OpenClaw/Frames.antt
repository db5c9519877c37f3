-- ===== src/OpenClaw/Frames.antt =====
-- services/openclaw/frames.py: the requests to the orchestrator, as JSON objects in the order of the
-- source.
use jota_gateway.Prelude.{Text, codes, number, text, array, object, nil, cons, Fields, end, field}

unfoldable pub req : (method req_id : Text) (params : Fields) → Fields
req method req_id params = field (codes "type") (text (codes "req")) (
    field (codes "id") (text req_id)
      (field (codes "method") (text method) (field (codes "params") (object params) end)))

unfoldable pub client_info : Fields
client_info = field (codes "id") (text (codes "gateway-client")) (
    field (codes "version") (text (codes "1.0.0")) (
      field (codes "platform") (text (codes "linux"))
        (field (codes "mode") (text (codes "backend")) end)))

unfoldable pub connect_backend : (req_id token : Text) → Fields
unfolding req client_info
connect_backend req_id token = req (codes "connect") req_id (
    field (codes "minProtocol") (number 3) (
      field (codes "maxProtocol") (number 4) (
        field (codes "client") (object client_info) (
          field (codes "role") (text (codes "operator")) (
            field (codes "scopes")
              (array
                (cons (text (codes "operator.read")) (cons (text (codes "operator.write")) nil)))
              (field (codes "auth") (object (field (codes "token") (text token) end)) end))))))

unfoldable pub sessions_subscribe : (req_id : Text) → Fields
unfolding req
sessions_subscribe req_id = req (codes "sessions.subscribe") req_id end

unfoldable pub health : (req_id : Text) → Fields
unfolding req
health req_id = req (codes "health") req_id end

unfoldable pub chat_send : (req_id session_key message idempotency_key : Text) → Fields
unfolding req
chat_send req_id session_key message idempotency_key = req (codes "chat.send") req_id (
    field (codes "sessionKey") (text session_key) (
      field (codes "message") (text message)
        (field (codes "idempotencyKey") (text idempotency_key) end)))

unfoldable pub chat_abort : (req_id session_key : Text) → Fields
unfolding req
chat_abort req_id session_key =
    req (codes "chat.abort") req_id (field (codes "sessionKey") (text session_key) end)

unfoldable pub agents_list : (req_id : Text) → Fields
unfolding req
agents_list req_id = req (codes "agents.list") req_id end
