-- ===== src/Logger.antt =====
-- src/modules/core/logging/Logger.service.ts and src/modules/core/logging/logger.ts.
pub mod Laws
mod Tests
use mathlib.Core.Option
use node_ddd_boilerplate_typ.Base.{
  Bool, List, Option, String, [], concat, if◌then◌else◌, is_empty_text, map, none, or_default, some,
  ℕ, ◌++◌, ◌∷◌,
}
use node_ddd_boilerplate_typ.DataParser.{joined, text_and_rest, to_string}
use node_ddd_boilerplate_typ.Platform.{Platform}
use node_ddd_boilerplate_typ.Value.{Value}

-- `LogLevelEnum`
pub data LogLevel : Type 0 where
  error_level warn_level info_level http_level verbose_level debug_level : LogLevel

-- The `stack` of an error: none, a text, or a list of texts.
pub data Stack : Type 0 where
  no_stack : Stack
  stack_text : String → Stack
  stack_lines : List String → Stack

-- An argument of a log: an error, by the text of its `toString` and its stack, or another value.
pub data Argument : Type 0 where
  logged_value : Value → Argument
  logged_error : String → Stack → Argument

-- `MetadataInterface`, without `details`, which nothing sets.
pub record Metadata : Type 0 where
  pub context : Option String
  pub request_id : Option String
  pub socket_id : Option String
  pub ip : Option String
  pub stack : Stack

-- `this.inquirer`: a text, or an object by the name of its constructor.
pub data Inquirer : Type 0 where
  inquirer_text : String → Inquirer
  inquirer_object : Option String → Inquirer

-- What a `LoggerService` holds.
pub record Logger : Type 0 where
  pub inquirer : Inquirer
  pub context_name : Option String
  pub logger_request : Option String
  pub logger_socket : Option String
  pub client_ip : Option String

-- What is handed to the log library.
pub record Entry : Type 0 where
  pub level : LogLevel
  pub message : String
  pub meta : Metadata

-- `setContextName`
abbrev pub set_context_name : Option String → Logger → Logger
set_context_name name l = record l { context_name = name }

-- `setRequestId`
abbrev pub set_request_id : Option String → Logger → Logger
set_request_id id l = record l { logger_request = id }

-- `setSocketId`
abbrev pub set_socket_id : Option String → Logger → Logger
set_socket_id id l = record l { logger_socket = id }

-- `setClientIp`
abbrev pub set_client_ip : Option String → Logger → Logger
set_client_ip ip l = record l { client_ip = ip }

-- `inquirerName`
unfoldable pub inquirer_name : Inquirer → Option String
inquirer_name (inquirer_text name) = some name
inquirer_name (inquirer_object name) = name

abbrev pub context_or : Option String → Option String → Option String
context_or none name = name
context_or (some context) name = some context

-- `contextName` of `buildLog`
unfoldable pub context_name_of : Logger → Option String
context_name_of l = context_or l.context_name (inquirer_name l.inquirer)

abbrev pub black : String → String
black text = concat "\u{1b}[0;30m" (concat text "\u{1b}[0m")

-- The texts that an argument adds to `errorStacks`.
unfoldable pub stacks_of : Argument → List String
stacks_of (logged_error text (stack_text t)) = if is_empty_text t then [] else black t ∷ []
stacks_of (logged_error text (stack_lines ts)) = map black ts
stacks_of _ = []

-- `errorStacks`
unfoldable pub error_stacks : List Argument → List String
error_stacks [] = []
error_stacks (a ∷ args) = stacks_of a ++ error_stacks args

-- `errorStacks.length > 0 ? errorStacks : undefined`
unfoldable pub stack_given : List String → Stack
stack_given [] = no_stack
stack_given (s ∷ ss) = stack_lines (s ∷ ss)

-- The entry of what is built.
abbrev pub entry_of : LogLevel → Option (String × Metadata) → Option Entry
entry_of level none = none
entry_of level (some (message, meta)) =
    some (record { level = level; message = message; meta = meta })

module _ ⦃p : Platform⦄ where
  unfoldable pub argument_text : Argument → Option String
  argument_text (logged_value v) = to_string v
  argument_text (logged_error text s) = some text

  unfoldable pub argument_texts : List Argument → Option (List String)
  argument_texts [] = some []
  argument_texts (a ∷ args) = text_and_rest (argument_text a) (argument_texts args)

  -- The message and the metadata of a log, and the logger behind it; `none` is that the text of
  -- an argument throws.
  unfoldable pub build_log : List Argument → Logger → Option (String × Metadata) × Logger
  build_log args l =
      let context = context_name_of l in
      (
        Option.map
            (λ text. (
              text,
              record {
                context = context;
                request_id = l.logger_request;
                socket_id = l.logger_socket;
                ip = l.client_ip;
                stack = stack_given (error_stacks args);
              },
            ))
            (joined (argument_texts args)),
        set_context_name context l,
      )

  -- The methods of the service, which are named by the levels.
  unfoldable pub log_at : LogLevel → List Argument → Logger → Option Entry × Logger
  log_at level args l =
      let (built, after) = build_log args l in
      (Option.map (λ b. record { level = level; message = b.0; meta = b.1 }) built, after)

-- The order of the levels, the most severe first.
unfoldable pub priority : LogLevel → ℕ
priority error_level = 0
priority warn_level = 1
priority info_level = 2
priority http_level = 3
priority verbose_level = 4
priority debug_level = 5

-- `consoleMaxLevel`
unfoldable pub console_max_level : Bool → LogLevel
console_max_level show_detailed_logs = if show_detailed_logs then debug_level else http_level

-- `fileMaxLevel`
unfoldable pub file_max_level : Bool → LogLevel
file_max_level show_detailed_logs = if show_detailed_logs then http_level else warn_level

-- `if (value) log += label + value`
unfoldable pub labelled : String → Option String → String → String
labelled label none log = log
labelled label (some text) log = if is_empty_text text then log else concat log (concat label text)

unfoldable pub add_lines : String → List String → String
add_lines log [] = log
add_lines log (line ∷ lines) = add_lines (concat log (concat "\n" line)) lines

-- The log with the stack.
unfoldable pub add_stack : String → Stack → String
add_stack log no_stack = log
add_stack log (stack_text t) = if is_empty_text t then log else concat log (concat "\n" t)
add_stack log (stack_lines ts) = add_lines log ts

-- `errorStack ?? meta?.stack`
abbrev pub stack_or : Stack → Stack → Stack
stack_or no_stack other = other
stack_or s other = s

-- `(context || metaContext) ?? 'DefaultContext'`, where the context is none or empty if it is
-- skipped.
unfoldable pub context_text : Option String → Option String → String
context_text none meta_context = or_default meta_context "DefaultContext"
context_text (some text) meta_context =
    if is_empty_text text then or_default meta_context "DefaultContext" else text

-- `log` of the formatter, behind its prefix.
unfoldable pub log_text : String → Stack → Metadata → String
log_text message error_stack meta =
    add_stack
      (labelled " - socketId: " meta.socket_id
        (labelled " - requestId: " meta.request_id (labelled " - IP: " meta.ip message)))
      (stack_or error_stack meta.stack)

-- The line of a message with metadata; the level's text is coloured by the log library.
unfoldable pub format_message : String → String → Option String → String → Stack → Metadata → String
format_message timestamp level context message error_stack meta = concat timestamp (
    concat " | " (
      concat level (
        concat " [" (
          concat (concat "\u{1b}[0;35m" (concat (context_text context meta.context) "\u{1b}[0m"))
            (concat "]: " (log_text message error_stack meta))))))
