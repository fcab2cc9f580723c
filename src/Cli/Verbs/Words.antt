-- ===== src/Cli/Verbs/Words.antt =====
-- The words of the verbs (`parseLinkVerb` of src/cli_parser.cpp, `verb_token` of
-- src/cli/link_command_dispatch.cpp).
use url_shortener.Prelude.{◌≡◌, refl, ◌↔◌, arith, if◌then◌else◌, Bytes, bytes, ◌=ᵇ◌, bytes_eq_iff}
use url_shortener.Cli.Options.{Parsed, parsed, rejected}
use url_shortener.Cli.HelpTexts.{
  LinkCliVerb, create, get, update, del, enable, disable, restore, preview, stats,
}
use url_shortener.Cli.Verbs.{parse_link_verb}
use url_shortener.Cli.Dispatch.{verb_token}

parse_link_verb-verb_token : (v : LinkCliVerb) → parse_link_verb (verb_token v) ≡ parsed v
unfolding parse_link_verb verb_token ◌=ᵇ◌
parse_link_verb-verb_token create = refl
parse_link_verb-verb_token get = refl
parse_link_verb-verb_token update = refl
parse_link_verb-verb_token del = refl
parse_link_verb-verb_token enable = refl
parse_link_verb-verb_token disable = refl
parse_link_verb-verb_token restore = refl
parse_link_verb-verb_token preview = refl
parse_link_verb-verb_token stats = refl

word :
    (token w : Bytes) (v : LinkCliVerb) (other : Parsed LinkCliVerb) (u : LinkCliVerb)
    → verb_token v ≡ w
    → (other ≡ parsed u → token ≡ verb_token u)
    → (if token =ᵇ w then parsed v else other) ≡ parsed u
    → token ≡ verb_token u
word token w v other u e rest h = ground (arith, bytes_eq_iff token w)

unknown :
    (text : Bytes) (u : LinkCliVerb) (token : Bytes)
    → ◌≡◌ {A = Parsed LinkCliVerb} (rejected text) (parsed u)
    → token ≡ verb_token u
unknown text u token e = cc

-- `link` takes exactly the words that its messages use for the verbs, each for its verb.
pub parse_link_verb_iff :
    (token : Bytes) (v : LinkCliVerb) → (parse_link_verb token ≡ parsed v) ↔ (token ≡ verb_token v)
unfolding parse_link_verb verb_token
parse_link_verb_iff token v = (
  word token (bytes "create") create _ v refl (
      word token (bytes "get") get _ v refl (
        word token (bytes "update") update _ v refl (
          word token (bytes "delete") del _ v refl (
            word token (bytes "enable") enable _ v refl (
              word token (bytes "disable") disable _ v refl (
                word token (bytes "restore") restore _ v refl (
                  word token (bytes "preview") preview _ v refl
                    (word token (bytes "stats") stats _ v refl (unknown _ v token))))))))),
  λ e. rw e (parse_link_verb-verb_token v),
)
