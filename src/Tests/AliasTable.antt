-- ===== src/Tests/AliasTable.antt =====
-- Runs of the alias table and its builtins, and their theorems at concrete tables.
use cshell.Prelude.{some, [], ◌∷◌, ◌≡◌, refl, if◌then◌else◌}
use cshell.Prelude.Bytes.{codes, bytes_eq}
use cshell.Prelude.Stream.{ready}
use cshell.Alias.{ok, err, get, set_alias}
use cshell.Alias.Order.{get-set_alias}
use cshell.Alias.Builtin.{builtin_alias}
use cshell.Alias.Builtin.Quote.{plain, read_words, listing, definitions}
use cshell.Alias.Builtin.Laws.{builtin_alias-listing, builtin_alias_reload}
use cshell.Tests.{two_aliases, two_aliases-IsTable, session}

get-set_alias_example :
    get (set_alias (codes "k") (codes "v") two_aliases []).1 (codes "k")
    ≡ (elim (set_alias (codes "k") (codes "v") two_aliases []).0 [
      | ok ↦
          if bytes_eq (codes "k") (codes "k") then some (codes "v") else get two_aliases (codes "k")
      | err e ↦ get two_aliases (codes "k")
    ])
get-set_alias_example = get-set_alias (codes "k") (codes "k") (codes "v") two_aliases []

builtin_alias-listing_example :
    (builtin_alias (codes "alias" ∷ []) session
      ≡ (0, record session { out = ready (listing two_aliases) }))
    × (read_words plain [] (listing two_aliases) ≡ some (definitions two_aliases))
builtin_alias-listing_example =
    builtin_alias-listing (codes "alias") session two_aliases-IsTable refl

builtin_alias_reload_example :
    builtin_alias
      (codes "alias" ∷ codes "--" ∷ definitions two_aliases)
      (record session { aliases = [] })
    ≡ (0, session)
builtin_alias_reload_example =
    builtin_alias_reload (codes "alias") two_aliases (record session { aliases = [] })
      two_aliases-IsTable refl refl
