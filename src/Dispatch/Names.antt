-- ===== src/Dispatch/Names.antt =====
-- `_REMOVED_NAMES` and `_summarize_removed` of src/nixadmin/server.py.
use nixadmin.Prelude.{
  String, ◌<>◌, none, some, List, [], ◌∷◌, ◌++◌, contains, string_eq, if◌then◌else◌,
}
use nixadmin.Prelude.Dict.{Dict, lookup}
use nixadmin.Prelude.Text.{join}

abbrev pub removed_names : Dict String String
removed_names =
    ("[email]", "email")
    ∷ ("[ip]", "IP address")
    ∷ ("[api-key]", "API key")
    ∷ ("[token]", "token")
    ∷ ("Bearer [token]", "token")
    ∷ ("[aws-key]", "AWS key")
    ∷ ("[slack-token]", "Slack token")
    ∷ ("[secret]", "secret")
    ∷ ("/home/[user]", "home path")
    ∷ ("/Users/[user]", "home path")
    ∷ []

-- _REMOVED_NAMES.get(r, "detail")
unfoldable pub name_of : String → String
name_of r = elim (lookup r removed_names) [ none ↦ "detail" | some name ↦ name ]

-- The names in order, each once.
unfoldable pub names_of : List String → List String → List String
names_of names [] = names
names_of names (r ∷ rs) =
    names_of (if contains names (name_of r) then names else names ++ (name_of r ∷ [])) rs

-- ", ".join(names[:-1]) + " and " + names[-1]
unfoldable pub join_names : List String → List String → String
join_names before [] = ""
join_names [] (x ∷ []) = x
join_names (b ∷ before) (x ∷ []) = join ", " (b ∷ before) <> " and " <> x
join_names before (x ∷ y ∷ xs) = join_names (before ++ (x ∷ [])) (y ∷ xs)

unfoldable pub summarize_removed : List String → String
summarize_removed [] = ", with any personal details removed"
summarize_removed (r ∷ rs) = ", with your " <> join_names [] (names_of [] (r ∷ rs)) <> " removed"
