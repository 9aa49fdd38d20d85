-- ===== src/Logger/Tests.antt =====
-- Logs of a service that has no context of its own.
use node_ddd_boilerplate_typ.Base.{List, [], none, refl, some, ◌∷◌, ◌≡◌}
use node_ddd_boilerplate_typ.DataParser.{to_string}
use node_ddd_boilerplate_typ.Logger.{
  Argument, Entry, Logger, add_lines, add_stack, argument_text, argument_texts, build_log,
  context_name_of, context_text, error_stacks, format_message, info_level, inquirer_name,
  inquirer_text, labelled, log_at, log_text, logged_error, logged_value, no_stack, stack_given,
  stack_lines, stack_text, stacks_of, warn_level,
}
use node_ddd_boilerplate_typ.Logger.Laws.{
  LoggerCall, context_behind, log_call, logs_keep_context, name_call, request_call,
}
use node_ddd_boilerplate_typ.Users.Example.{platform}
use node_ddd_boilerplate_typ.Value.{str}

abbrev cron : Logger
cron = record {
  inquirer = inquirer_text "CronJob";
  context_name = none;
  logger_request = none;
  logger_socket = none;
  client_ip = none;
}

abbrev logged_arguments : List Argument
logged_arguments = logged_value (str "failed") ∷ logged_error "Error: no" (stack_text "at f") ∷ []

abbrev cron_entry : Entry
cron_entry = record {
  level = warn_level;
  message = "failed, Error: no";
  meta = record {
    context = some "Sync";
    request_id = some "r1";
    socket_id = none;
    ip = none;
    stack = stack_lines ("\u{1b}[0;30mat f\u{1b}[0m" ∷ []);
  };
}

abbrev earlier : List LoggerCall
earlier =
    log_call info_level (logged_value (str "started") ∷ [])
    ∷ name_call "Sync"
    ∷ request_call (some "r1")
    ∷ []

logs_keep_context_example : cron_entry.meta.context ≡ context_behind earlier (context_name_of cron)
unfolding log_at build_log argument_texts argument_text to_string stack_given error_stacks stacks_of
    context_name_of inquirer_name
logs_keep_context_example =
    logs_keep_context ⦃p = platform⦄ earlier warn_level logged_arguments cron cron_entry refl

file_line :
    format_message "now" "WARN" none cron_entry.message no_stack cron_entry.meta
    ≡ "now | WARN [\u{1b}[0;35mSync\u{1b}[0m]: failed, Error: no - requestId: r1\n\u{1b}[0;30mat f\u{1b}[0m"
unfolding format_message log_text add_stack add_lines labelled context_text
file_line = refl
