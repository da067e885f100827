-- ===== src/Aws.antt =====
-- internal/awscfg/awscfg.go: the one thing that it adds to the SDK, the endpoint of its clients. A client
-- of the SDK's is what it makes of the endpoint, which is nil for AWS itself.
use fraud_detection_scoring.Prelude.{String, Option, none, some, str_eq, if◌then◌else◌}
use fraud_detection_scoring.Config.{Environment, get_env}

abbrev endpoint : Environment → String
endpoint env = get_env env "AWS_ENDPOINT_URL" ""

abbrev base_endpoint : Environment → Option String
base_endpoint env = if str_eq (endpoint env) "" then none else some (endpoint env)

-- `SQS` and `Dynamo`, of what `Load` gave.
unfoldable pub sqs : {A : Type 0} → Environment → (Option String → A) → A
unfolding get_env
sqs env new_from_config = new_from_config (base_endpoint env)

unfoldable pub dynamo : {A : Type 0} → Environment → (Option String → A) → A
unfolding get_env
dynamo env new_from_config = new_from_config (base_endpoint env)
