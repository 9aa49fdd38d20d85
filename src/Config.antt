-- ===== src/Config.antt =====
-- src/modules/core/configs/envs.config.ts, the shape of the settings: ConfigsInterface.
pub mod Envs
pub mod Laws
mod Tests
use node_ddd_boilerplate_typ.Base.{Bool, Option, String, ℕ}

-- `application`; `none` as a port is NaN.
pub record ApplicationConfigs : Type 0 where
  pub app_name : String
  pub environment : String
  pub app_port : Option ℕ
  pub nest_dev_tools_port : Option ℕ
  pub sentry_dsn : String
  pub app_url : String
  pub socket_env : Bool
  pub show_detailed_logs : Bool
  pub show_external_logs : Bool
  pub logs_path : String

-- `database.define`
pub record ModelOptions : Type 0 where
  pub underscored : Bool
  pub timestamps : Bool
  pub paranoid : Bool
  pub freeze_table_name : Bool

-- `database.pool`
pub record PoolOptions : Type 0 where
  pub min_connections : ℕ
  pub max_connections : ℕ
  pub fifo : Bool
  pub acquire : ℕ
  pub idle : ℕ

-- `database`
pub record DatabaseConfigs : Type 0 where
  pub database : String
  pub username : String
  pub password : String
  pub database_host : String
  pub database_port : String
  pub dialect : String
  -- `dialectOptions.ssl.rejectUnauthorized`
  pub reject_unauthorized : Bool
  pub charset : String
  pub timezone : String
  pub define : ModelOptions
  pub pool : PoolOptions

-- `data.mongo`
pub record MongoConfigs : Type 0 where
  pub uri : String
  pub max_connecting : ℕ
  pub max_pool_size : ℕ

-- `data.databases.datalake`
pub record DatalakeConfigs : Type 0 where
  pub datalake_name : String
  -- `collections.subscriptions`
  pub subscriptions_collection : String
  -- `collections.unprocessedMessages`
  pub unprocessed_messages_collection : String

-- `cache`
pub record CacheConfigs : Type 0 where
  pub redis_port : String
  pub redis_host : String
  -- `expirationTime.subscriptions`
  pub subscriptions_expiration : ℕ
  -- `expirationTime.hooks`
  pub hooks_expiration : ℕ

-- `integration.aws.credentials`
pub record AwsCredentials : Type 0 where
  pub region : String
  pub access_key_id : String
  pub secret_access_key : String
  pub session_token : String
  pub endpoint : Option String

-- `integration.aws.congito`
pub record CognitoConfigs : Type 0 where
  pub user_pool_name : String
  pub user_pool_id : String
  pub client_name : String
  pub cognito_client_id : String
  pub cognito_api_version : String
  pub cognito_max_attempts : ℕ

-- `integration.aws.sqs`
pub record SqsConfigs : Type 0 where
  pub queue_name : String
  pub queue_url : String
  pub sqs_api_version : String
  pub sqs_max_attempts : ℕ

-- `integration.aws.sns`
pub record SnsConfigs : Type 0 where
  pub topic_name : String
  pub topic_arn : String
  pub topic_protocol : String
  pub sns_api_version : String
  pub sns_max_attempts : ℕ

-- `integration.aws.s3`
pub record S3Configs : Type 0 where
  pub bucket_name : String
  pub files_expiration : ℕ
  pub s3_api_version : String
  pub s3_max_attempts : ℕ

-- `integration.rest.mockedService`
pub record MockedServiceConfigs : Type 0 where
  pub service_name : String
  pub base_url : String
  pub timeout : ℕ
  pub max_redirects : ℕ
  pub max_retries : ℕ

-- `ConfigsInterface`
pub record Configs : Type 0 where
  pub application : ApplicationConfigs
  pub relational : DatabaseConfigs
  pub mongo : MongoConfigs
  pub datalake : DatalakeConfigs
  pub caching : CacheConfigs
  pub credentials : AwsCredentials
  pub cognito : CognitoConfigs
  pub sqs : SqsConfigs
  pub sns : SnsConfigs
  pub s3 : S3Configs
  pub mocked_service : MockedServiceConfigs
  -- `security.secretKey`
  pub secret_key : String
