-- ===== src/Config/Tests.antt =====
-- The theorems of the configuration at concrete inputs, and runs.
use ripple.Prelude.{Text, text_dec, bytes, ◌≡◌, refl, some, List, [], ◌∷◌, All}
use ripple.Config.{default_flags, Host, parse, resolve_data_dir}
use ripple.Config.Paths.{path_join, path_clean, with_slashes, keep_parts, path_parts, keep_part}
use ripple.Config.Csv.{
  split_csv, holds_separator, IsItem, put_together, without_separators, with_commas, split_csv_lem,
  split_csv-with_commas,
}

abbrev two_peers : List Text
two_peers = bytes "/ip4/10.0.0.1" ∷ bytes "b" ∷ []

split_csv_lem_example :
    All IsItem (split_csv (bytes " a,,b c ,"))
    × (put_together (split_csv (bytes " a,,b c ,")) ≡ without_separators (bytes " a,,b c ,"))
split_csv_lem_example = split_csv_lem (bytes " a,,b c ,")

split_csv-with_commas_example : split_csv (with_commas two_peers) ≡ two_peers
split_csv-with_commas_example =
    split_csv-with_commas two_peers
      ((refl, unfold holds_separator in refl), ((refl, unfold holds_separator in refl), tt))

abbrev phone : Host
phone = record { home = some (bytes "/home/me/../you/"); hostname = bytes "phone" }

identity_path_of_phone :
    (parse phone default_flags).identity_path ≡ bytes "/home/you/.ripple/identity.pem"
unfolding parse path_join resolve_data_dir path_clean with_slashes keep_parts path_parts keep_part
    text_dec
identity_path_of_phone = refl
