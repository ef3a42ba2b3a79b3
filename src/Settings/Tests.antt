-- ===== src/Settings/Tests.antt =====
-- The configuration of the sockets, in part.
use aiot_edge_gateway.Prelude.{◌≡◌, refl, some, List, [], ◌∷◌}
use aiot_edge_gateway.Prelude.Text.{codes}
use aiot_edge_gateway.Settings.File.{
  lookup, skip_blanks, cut_blanks, trim_line, load_pair, load_trimmed, get_lines, load_lines,
  load_config,
}
use aiot_edge_gateway.Settings.RoundTrip.{Line, section, pair, comment}

abbrev lines : List Line
lines =
    comment (codes " sockets")
    ∷ section (codes "uds")
    ∷ pair (codes "data_path") (codes "/tmp/a=b")
    ∷ pair (codes "data_path") (codes "/tmp/c")
    ∷ []

engine_path :
    lookup (codes "uds") (codes "k") (load_config (some (codes " [ uds ]\n\nk = v w \r\nx\n")))
    ≡ codes "v w"
unfolding lookup load_config load_lines get_lines load_trimmed load_pair trim_line cut_blanks
    skip_blanks
engine_path = refl
