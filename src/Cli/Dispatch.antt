-- ===== src/Cli/Dispatch.antt =====
-- src/cli/link_command_dispatch.cpp: one `link` command over the service that the handlers use.
pub mod Output
use url_shortener.Prelude.{ℕ, List, [], ◌∷◌, ◌++◌, Bytes, bytes}
use url_shortener.Core.Config.{ServerConfig}
use url_shortener.Analytics.Events.{ClickEvent}
use url_shortener.Storage.LinkRepository.{Store}
use url_shortener.App.Types.{
  AppErrorCode, success, not_found, invalid_url, invalid_slug, invalid_field, reserved_slug,
  slug_conflict, storage_failure, internal, AppError, Outcome, ok, err, Env,
}
use url_shortener.App.Service.{create_link, get_link}
use url_shortener.App.Service.Commands.{update_link, delete_link, set_link_enabled, restore_link}
use url_shortener.App.Serialize.{serialize_link_view_json, serialize_link_preview_json}
use url_shortener.App.Legacy.{legacy_link_store}
use url_shortener.App.LegacyStats.{read, serialize_link_stats_json}
use url_shortener.Cli.HelpTexts.{
  LinkCliVerb, create, get, update, del, enable, disable, restore, preview, stats,
}
use url_shortener.Cli.Verbs.{
  LinkCliCommand, creating, getting, updating, deleting, enabling, disabling, restoring, previewing,
  reporting,
}

unfoldable pub verb_token : LinkCliVerb → Bytes
verb_token create = bytes "create"
verb_token get = bytes "get"
verb_token update = bytes "update"
verb_token del = bytes "delete"
verb_token enable = bytes "enable"
verb_token disable = bytes "disable"
verb_token restore = bytes "restore"
verb_token preview = bytes "preview"
verb_token stats = bytes "stats"

unfoldable pub exit_code_for_app_error : AppErrorCode → ℕ
exit_code_for_app_error success = 0
exit_code_for_app_error not_found = 1
exit_code_for_app_error invalid_url = 2
exit_code_for_app_error invalid_slug = 2
exit_code_for_app_error invalid_field = 2
exit_code_for_app_error reserved_slug = 2
exit_code_for_app_error slug_conflict = 3
exit_code_for_app_error storage_failure = 4
exit_code_for_app_error internal = 4

-- What a process writes, and its exit code.
pub record Report : Type 0 where
  pub stdout : Bytes
  pub stderr : Bytes
  pub exit_code : ℕ

unfoldable pub report_failure : Bytes → AppError → Report
unfolding exit_code_for_app_error
report_failure verb e = record {
  stdout = [];
  stderr = verb ++ (bytes " failed: " ++ (e.detail ++ 10 ∷ []));
  exit_code = exit_code_for_app_error e.code;
}

-- `report_result` and `report_preview_result`, by the serializer of the view. A result that is ok
-- carries a value.
unfoldable pub report_result : {V : Type 0} → (V → Bytes) → Bytes → Outcome V → Report
unfolding report_failure
report_result serialize verb (ok view) = record {
  stdout = serialize view ++ 10 ∷ [];
  stderr = [];
  exit_code = 0;
}
report_result serialize verb (err e) = report_failure verb e

unfoldable pub report_with :
    {V : Type 0} → (V → Bytes) → LinkCliVerb → Outcome V × Store → Report × Store
unfolding report_result verb_token
report_with serialize verb (result, s) = (report_result serialize (verb_token verb) result, s)

-- `std::get` of the payload, the call of the service, and the report.
unfoldable pub dispatch_link_command :
    ServerConfig → Env → List ClickEvent → LinkCliCommand → Store → Report × Store
unfolding report_with
dispatch_link_command config env clicks (creating c) s =
    report_with serialize_link_view_json create (create_link legacy_link_store config env c s)
dispatch_link_command config env clicks (getting q) s =
    report_with serialize_link_view_json get (get_link legacy_link_store config env q s)
dispatch_link_command config env clicks (previewing q) s =
    report_with serialize_link_preview_json preview (get_link legacy_link_store config env q s)
dispatch_link_command config env clicks (updating c) s =
    report_with serialize_link_view_json update (update_link legacy_link_store config env c s)
dispatch_link_command config env clicks (deleting c) s =
    report_with serialize_link_view_json del (delete_link legacy_link_store config env c s)
dispatch_link_command config env clicks (enabling c) s =
    report_with serialize_link_view_json enable (set_link_enabled legacy_link_store config env c s)
dispatch_link_command config env clicks (disabling c) s =
    report_with serialize_link_view_json disable (set_link_enabled legacy_link_store config env c s)
dispatch_link_command config env clicks (restoring c) s =
    report_with serialize_link_view_json restore (restore_link legacy_link_store config env c s)
dispatch_link_command config env clicks (reporting q) s =
    report_with serialize_link_stats_json stats (read q clicks, s)
