-- ===== src/Cli/HelpTexts.antt =====
-- src/cli_parser.cpp: the help texts of `link` and of its verbs, line by line.
use url_shortener.Prelude.{List, [], ◌∷◌, ◌++◌, Bytes, bytes}

pub data LinkCliVerb : Type 0 where
  create get update del enable disable restore preview stats : LinkCliVerb

-- Each line with a line feed behind it.
unfoldable pub lines : List Bytes → Bytes
lines [] = []
lines (l ∷ ls) = l ++ 10 ∷ lines ls

unfoldable pub build_link_help_text : Bytes
unfolding lines
build_link_help_text = lines (
    bytes "Usage: url_shortener link <verb> [options]"
    ∷ []
    ∷ bytes "Manage short links from the command line. Run"
    ∷ bytes "`url_shortener link <verb> --help` for a verb's flags."
    ∷ []
    ∷ bytes "Verbs:"
    ∷ bytes "  create   Create a new short link."
    ∷ bytes "  get      Look up a link by slug or id."
    ∷ bytes "  update   Update fields of an existing link (PATCH semantics)."
    ∷ bytes "  delete   Soft-delete a link."
    ∷ bytes "  enable   Enable a link."
    ∷ bytes "  disable  Disable a link."
    ∷ bytes "  restore  Restore a soft-deleted link."
    ∷ bytes "  preview  Preview a link's target without redirecting."
    ∷ bytes "  stats    Report click statistics for a link."
    ∷ [])

unfoldable pub build_link_verb_help_text : LinkCliVerb → Bytes
unfolding lines
build_link_verb_help_text create = lines (
    bytes "Usage: url_shortener link create --url <URL> [options]"
    ∷ []
    ∷ bytes "Create a new short link."
    ∷ []
    ∷ bytes "Required:"
    ∷ bytes "  --url <URL>                Target URL to shorten."
    ∷ []
    ∷ bytes "Optional:"
    ∷ bytes "  --slug <SLUG>              Custom slug for the short link."
    ∷ bytes "  --redirect-type <temporary|permanent>"
    ∷ bytes "                             Redirect type."
    ∷ bytes "  --expires-at <RFC3339>     Expiry timestamp (RFC3339 UTC)."
    ∷ bytes "  --enabled <BOOL>           Initial enabled state (true/false)."
    ∷ bytes "  --tag <TAG>                Tag to attach (repeatable)."
    ∷ bytes "  --metadata <KEY=VALUE>     Metadata entry (repeatable)."
    ∷ bytes "  --campaign-name|-source|-medium|-term|-content|-id <VALUE>"
    ∷ bytes "                             Campaign attribution fields."
    ∷ bytes "  --base-domain <URL>        Base domain for the short URL."
    ∷ bytes "  --allow-private-targets    Permit private/intranet targets."
    ∷ [])
build_link_verb_help_text get = lines (
    bytes "Usage: url_shortener link get (--slug <SLUG> | --id <ID>)"
    ∷ []
    ∷ bytes "Look up a link. Exactly one selector is required."
    ∷ []
    ∷ bytes "  --slug <SLUG>              Look up the link by slug."
    ∷ bytes "  --id <ID>                  Look up the link by id."
    ∷ [])
build_link_verb_help_text update = lines (
    bytes "Usage: url_shortener link update --slug <SLUG> [options]"
    ∷ []
    ∷ bytes "Update fields of an existing link. Every optional flag uses PATCH"
    ∷ bytes "semantics: omit it to leave the field untouched."
    ∷ []
    ∷ bytes "Required:"
    ∷ bytes "  --slug <SLUG>              Slug of the link to update."
    ∷ []
    ∷ bytes "Optional:"
    ∷ bytes "  --enabled <BOOL>           New enabled state (true/false)."
    ∷ bytes "  --expires-at <RFC3339|clear>"
    ∷ bytes "                             Set the expiry, or 'clear' to drop it."
    ∷ bytes "  --tags <A,B,C>             Replacement tags (comma-separated; empty"
    ∷ bytes "                             value clears all tags)."
    ∷ bytes "  --metadata <KEY=VALUE,...> Replacement metadata (comma-separated;"
    ∷ bytes "                             empty value clears all metadata)."
    ∷ bytes "  --campaign-name|-source|-medium|-term|-content|-id <VALUE>"
    ∷ bytes "                             Set campaign attribution fields."
    ∷ bytes "  --clear-campaign           Clear the campaign (mutually exclusive"
    ∷ bytes "                             with --campaign-*)."
    ∷ [])
build_link_verb_help_text del = lines (
    bytes "Usage: url_shortener link delete --slug <SLUG>"
    ∷ []
    ∷ bytes "Soft-delete a link."
    ∷ []
    ∷ bytes "  --slug <SLUG>              Slug of the link to delete (required)."
    ∷ [])
build_link_verb_help_text enable = lines (
    bytes "Usage: url_shortener link enable --slug <SLUG>"
    ∷ []
    ∷ bytes "Enable a link."
    ∷ []
    ∷ bytes "  --slug <SLUG>              Slug of the link to enable (required)."
    ∷ [])
build_link_verb_help_text disable = lines (
    bytes "Usage: url_shortener link disable --slug <SLUG>"
    ∷ []
    ∷ bytes "Disable a link."
    ∷ []
    ∷ bytes "  --slug <SLUG>              Slug of the link to disable (required)."
    ∷ [])
build_link_verb_help_text restore = lines (
    bytes "Usage: url_shortener link restore --slug <SLUG>"
    ∷ []
    ∷ bytes "Restore a soft-deleted link."
    ∷ []
    ∷ bytes "  --slug <SLUG>              Slug of the link to restore (required)."
    ∷ [])
build_link_verb_help_text preview = lines (
    bytes "Usage: url_shortener link preview (--slug <SLUG> | --id <ID>)"
    ∷ []
    ∷ bytes "Preview a link's target without redirecting. Exactly one selector"
    ∷ bytes "is required."
    ∷ []
    ∷ bytes "  --slug <SLUG>              Look up the link by slug."
    ∷ bytes "  --id <ID>                  Look up the link by id."
    ∷ [])
build_link_verb_help_text stats = lines (
    bytes
      "Usage: url_shortener link stats --slug <SLUG> --from <EPOCH> --to <EPOCH> --bucket <BUCKET>"
    ∷ []
    ∷ bytes "Report click statistics for a link. All flags are required."
    ∷ []
    ∷ bytes "  --slug <SLUG>              Slug of the link to report on."
    ∷ bytes "  --from <EPOCH>             Window start as a Unix epoch."
    ∷ bytes "  --to <EPOCH>               Window end as a Unix epoch."
    ∷ bytes "  --bucket <BUCKET>          Aggregation granularity: hour, day, or week."
    ∷ [])
