-- ===== src/Config/Laws.antt =====
-- What the settings take from the environment.
use node_ddd_boilerplate_typ.Base.{
  List, Option, String, [], ap, if◌then◌else◌, map, none, refl, sym, ℕ, ◌==◌, ◌∙◌, ◌∷◌, ◌≡◌,
}
use node_ddd_boilerplate_typ.Config.Envs.{
  Env, application_configs, aws_credentials, cache_configs, cognito_configs, configs,
  database_configs, datalake_configs, mocked_service_configs, mongo_configs, s3_configs,
  sns_configs, sqs_configs,
}
use node_ddd_boilerplate_typ.Value.{values}

-- The variables that the settings name.
abbrev pub variables : List String
variables =
    "APP_NAME" ∷ "NODE_ENV" ∷ "APP_PORT" ∷ "NESTDEV_PORT" ∷ "SENTRY_DSN" ∷ "APP_URL" ∷ "SOCKET_ENV"
    ∷ "SHOW_DETAILED_LOGS" ∷ "SHOW_EXTERNAL_LOGS" ∷ "APP_LOGS_PATH" ∷ "DB_NAME" ∷ "DB_USERNAME"
    ∷ "DB_PASSWORD" ∷ "DB_HOST" ∷ "DB_PORT" ∷ "DB_DBMS_NAME" ∷ "MONGO_URI"
    ∷ "MONGO_DB_NAME_DATALAKE" ∷ "REDIS_PORT" ∷ "REDIS_HOST" ∷ "AWS_REGION" ∷ "AWS_ACCESS_KEY_ID"
    ∷ "AWS_SECRET_ACCESS_KEY" ∷ "AWS_SESSION_TOKEN" ∷ "AWS_ENDPOINT_URL"
    ∷ "AWS_COGNITO_USER_POOL_NAME" ∷ "AWS_COGNITO_USER_POOL_ID"
    ∷ "AWS_COGNITO_USER_POOL_CLIENT_NAME" ∷ "AWS_COGNITO_USER_POOL_CLIENT_ID" ∷ "AWS_API_VERSION"
    ∷ "AWS_SQS_EVENTS_QUEUE_NAME" ∷ "AWS_SQS_EVENTS_QUEUE_URL" ∷ "AWS_SNS_DEFAULT_TOPIC_NAME"
    ∷ "AWS_SNS_DEFAULT_TOPIC_ARN" ∷ "AWS_TOPIC_PROTOCOL" ∷ "AWS_S3_BUCKET_NAME"
    ∷ "MOCKED_SERVICE_NAME" ∷ "MOCKED_SERVICE_URL" ∷ "SECRET" ∷ []

-- The environment of these variables with these values.
given : List String → List (Option String) → Env
given (v ∷ vs) (value ∷ values) name = if name == v then value else given vs values name
given _ _ name = none

configs-given :
    (parse_int : String → Option ℕ) (env : Env)
    → configs parse_int (given variables (map env variables)) ≡ configs parse_int env
unfolding given configs application_configs database_configs mongo_configs datalake_configs
    cache_configs aws_credentials cognito_configs sqs_configs sns_configs s3_configs
    mocked_service_configs
configs-given parse_int env = refl

-- The settings depend on no other variable of the environment than the ones that are listed: two
-- environments that give these the same values give the same settings.
pub configs-variables :
    (parse_int : String → Option ℕ) (env other : Env)
    → map env variables ≡ map other variables
    → configs parse_int env ≡ configs parse_int other
configs-variables parse_int env other same =
    sym (configs-given parse_int env)
    ∙ ap (λ values. configs parse_int (given variables values)) same
    ∙ configs-given parse_int other
