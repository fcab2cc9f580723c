-- ===== src/Cli/Dispatch/Output.antt =====
-- What a `link` command writes (src/cli/link_command_dispatch.cpp).
use url_shortener.Prelude.{ℕ, ◌≤◌, Option, none, some, ◌≡◌, true, List, [], ◌∷◌, ◌++◌, Bytes, bytes}
use url_shortener.Core.Config.{ServerConfig}
use url_shortener.Analytics.Events.{ClickEvent}
use url_shortener.Storage.LinkRepository.{Store}
use url_shortener.App.Types.{
  AppErrorCode, success, not_found, slug_conflict, storage_failure, internal, AppError, Outcome, ok,
  err, Env,
}
use url_shortener.App.LegacyStats.{read}
use url_shortener.App.Service.{create_link, get_link}
use url_shortener.App.Service.Commands.{update_link, delete_link, set_link_enabled, restore_link}
use url_shortener.App.Legacy.{legacy_link_store}
use url_shortener.App.Serialize.Lines.{is_line}
use url_shortener.Cli.HelpTexts.{LinkCliVerb}
use url_shortener.Cli.Verbs.{
  LinkCliCommand, creating, getting, updating, deleting, enabling, disabling, restoring, previewing,
  reporting,
}
use url_shortener.Cli.Dispatch.{verb_token, Report}

-- One line of output and success.
pub record IsAnswer (r : Report) : Type 0 where
  pub line : Bytes
  pub line_whole : is_line line ≡ true
  pub line_written : r.stdout ≡ line ++ 10 ∷ []
  pub nothing_reported : r.stderr ≡ []
  pub succeeds : r.exit_code ≡ 0

-- The exit codes that include/url_shortener/cli/link_command_dispatch.hpp documents.
abbrev pub documented_exit_code : AppErrorCode → ℕ
documented_exit_code success = 0
documented_exit_code not_found = 1
documented_exit_code slug_conflict = 3
documented_exit_code storage_failure = 4
documented_exit_code internal = 4
documented_exit_code code = 2

-- No output, the detail of an error behind the word of the verb, and a code that is not 0.
pub record IsFailure (verb : LinkCliVerb) (failure : AppError) (r : Report) : Type 0 where
  pub nothing_written : r.stdout ≡ []
  pub reported : r.stderr ≡ verb_token verb ++ (bytes " failed: " ++ (failure.detail ++ 10 ∷ []))
  pub exits_with : r.exit_code ≡ documented_exit_code failure.code
  pub fails : 1 ≤ r.exit_code

abbrev pub error_of : {V : Type 0} → Outcome V → Option AppError
error_of (ok view) = none
error_of (err e) = some e

-- The error, if there is one, that the service gives for a command.
abbrev pub service_error :
    ServerConfig → Env → List ClickEvent → LinkCliCommand → Store → Option AppError
service_error config env clicks (creating c) s =
    error_of (create_link legacy_link_store config env c s).0
service_error config env clicks (getting q) s =
    error_of (get_link legacy_link_store config env q s).0
service_error config env clicks (previewing q) s =
    error_of (get_link legacy_link_store config env q s).0
service_error config env clicks (updating c) s =
    error_of (update_link legacy_link_store config env c s).0
service_error config env clicks (deleting c) s =
    error_of (delete_link legacy_link_store config env c s).0
service_error config env clicks (enabling c) s =
    error_of (set_link_enabled legacy_link_store config env c s).0
service_error config env clicks (disabling c) s =
    error_of (set_link_enabled legacy_link_store config env c s).0
service_error config env clicks (restoring c) s =
    error_of (restore_link legacy_link_store config env c s).0
service_error config env clicks (reporting q) s = error_of (read q clicks)

-- A report is that of an error, or an answer where there is none.
abbrev pub Reports : LinkCliVerb → Option AppError → Report → Type 0
Reports verb none r = IsAnswer r
Reports verb (some e) r = IsFailure verb e r
