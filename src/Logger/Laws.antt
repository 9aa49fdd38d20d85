-- ===== src/Logger/Laws.antt =====
-- What the logger's service hands over and keeps.
use mathlib.Core.Option
use node_ddd_boilerplate_typ.Base.{
  Bool, List, Option, String, [], ap, arith, false, none, refl, some, sym, true, ◌∙◌, ◌∷◌, ◌≡◌, ◌≤◌,
}
use node_ddd_boilerplate_typ.DataParser.{joined}
use node_ddd_boilerplate_typ.Events.Handler.{logged}
use node_ddd_boilerplate_typ.Logger.{
  Argument, Entry, LogLevel, Logger, Metadata, argument_texts, build_log, console_max_level,
  context_name_of, context_or, entry_of, file_max_level, inquirer_name, log_at, priority,
  set_client_ip, set_context_name, set_request_id, set_socket_id,
}
use node_ddd_boilerplate_typ.Platform.{Platform}

-- What is called on a logger: the logs and the setters.
pub data LoggerCall : Type 0 where
  log_call : LogLevel → List Argument → LoggerCall
  name_call : String → LoggerCall
  request_call socket_call ip_call : Option String → LoggerCall

-- The context behind calls: the name that was set last, or else the one in front of them.
abbrev pub context_behind : List LoggerCall → Option String → Option String
context_behind [] context = context
context_behind (name_call name ∷ cs) context = context_behind cs (some name)
context_behind (c ∷ cs) context = context_behind cs context

context_or-same :
    (context name : Option String)
    → context_or (context_or context name) name ≡ context_or context name
context_or-same none none = refl
context_or-same none (some name) = refl
context_or-same (some context) name = refl

meta_or : Metadata → Option Entry → Metadata
meta_or meta none = meta
meta_or meta (some e) = e.meta

module _ ⦃p : Platform⦄ where
  -- The logger behind a call.
  abbrev pub called : LoggerCall → Logger → Logger
  called (log_call level args) l = (log_at level args l).1
  called (name_call name) l = set_context_name (some name) l
  called (request_call id) l = set_request_id id l
  called (socket_call id) l = set_socket_id id l
  called (ip_call ip) l = set_client_ip ip l

  abbrev pub all_called : List LoggerCall → Logger → Logger
  all_called [] l = l
  all_called (c ∷ cs) l = all_called cs (called c l)

  logged-context :
      (level : LogLevel) (args : List Argument) (l : Logger)
      → context_name_of (called (log_call level args) l) ≡ context_name_of l
  unfolding log_at build_log context_name_of
  logged-context level args l = context_or-same l.context_name (inquirer_name l.inquirer)

  all_called-context :
      (cs : List LoggerCall) (l : Logger)
      → context_name_of (all_called cs l) ≡ context_behind cs (context_name_of l)
  unfolding context_name_of
  all_called-context [] l = refl
  all_called-context (log_call level args ∷ cs) l =
      all_called-context cs (called (log_call level args) l)
      ∙ ap (context_behind cs) (logged-context level args l)
  all_called-context (name_call name ∷ cs) l = all_called-context cs (called (name_call name) l)
  all_called-context (request_call id ∷ cs) l = all_called-context cs (called (request_call id) l)
  all_called-context (socket_call id ∷ cs) l = all_called-context cs (called (socket_call id) l)
  all_called-context (ip_call ip ∷ cs) l = all_called-context cs (called (ip_call ip) l)

  entry-meta :
      (level : LogLevel) (text : Option String) (meta : Metadata) (e : Entry)
      → entry_of level (Option.map (λ t. (t, meta)) text) ≡ some e
      → meta ≡ e.meta
  unfolding meta_or
  entry-meta level none meta e given = ap (meta_or meta) given
  entry-meta level (some text) meta e given = ap (meta_or meta) given

  -- What a log hands over has the context of the logger.
  log_at-context :
      (level : LogLevel) (args : List Argument) (l : Logger) (e : Entry)
      → (log_at level args l).0 ≡ some e
      → e.meta.context ≡ context_name_of l
  unfolding log_at build_log
  log_at-context level args l e logged =
      sym (ap (λ m. m.context) (entry-meta level (joined (argument_texts args)) _ e logged))

  -- Whatever has been logged and set before, a log has as its context the name that was set last
  -- by a call; if none was, the context that the logger had in front of the calls, which is the
  -- context name it held or, without one, the name of the class that asked for it.
  pub logs_keep_context :
      (cs : List LoggerCall) (level : LogLevel) (args : List Argument) (l : Logger) (e : Entry)
      → (log_at level args (all_called cs l)).0 ≡ some e
      → e.meta.context ≡ context_behind cs (context_name_of l)
  logs_keep_context cs level args l e logged =
      log_at-context level args (all_called cs l) e logged ∙ all_called-context cs l

-- The levels that the file records are among those that the console shows.
pub file-console :
    (detailed : Bool) → priority (file_max_level detailed) ≤ priority (console_max_level detailed)
unfolding priority file_max_level console_max_level
file-console true = omega arith
file-console false = omega arith
