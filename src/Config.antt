-- ===== src/Config.antt =====
-- internal/config/config.go: how a setting that is a list is read from the environment.
use secure_dev.Prelude.{String, not, List, [], keep, map, ◌==◌, if◌then◌else◌}
use secure_dev.Prelude.Text.{trim_space, split}

-- The nil list, for a text of spaces, is the empty list here: split and trimmed, such a text leaves
-- nothing either, but the early return is kept.
unfoldable pub split_list : String → List String
unfolding trim_space split
split_list raw =
    if trim_space raw == "" then [] else keep (λ p. not (p == "")) (map trim_space (split 44 raw))
