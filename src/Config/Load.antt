-- ===== src/Config/Load.antt =====
-- internal/config/config.go: LoadFile and Parse. Decoding YAML, with unknown fields refused, is the
-- library's: a function from the text to the configuration, or none for an error.
use warp_router.Prelude.{String, Option, none, some}
use warp_router.Config.{SiteConfig}
use warp_router.Os.{World, Machine, contents, missing, unreadable, read_file}

pub data LoadError : Type 0 where
  unreadable_file parsing_yaml : LoadError

pub data Loaded : Type 0 where
  loaded : SiteConfig → Loaded
  not_loaded : LoadError → Loaded

module _ (decode : String → Option SiteConfig) where
  unfoldable pub parse : String → Loaded
  parse text = elim (decode text) [ none ↦ not_loaded parsing_yaml | some cfg ↦ loaded cfg ]

  unfoldable pub load_file : Machine → String → World → World × Loaded
  unfolding read_file parse
  load_file os path w =
      let (w', result) = read_file os path w in
      elim result [
        | contents text ↦ (w', parse text)
        | missing ↦ (w', not_loaded unreadable_file)
        | unreadable ↦ (w', not_loaded unreadable_file)
      ]
