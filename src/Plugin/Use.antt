-- ===== src/Plugin/Use.antt =====
-- `use` of plugin.go on several plugins.
use gofins.Base.{
  Bool, Option, none, some, List, [], ◌∷◌, ◌++◌, Result, ok, err, Error, ◌≡◌, ◌⊎◌, map,
}
use gofins.Interceptor.{Env}
use gofins.Plugin.{Plugins, PluginManager}
use gofins.Plugin.Registration.{IsConsistent, IsQuiet}

module _ (env : Env) (plugins : Plugins env.World)
    (manager : env.World → PluginManager plugins.Plugin)
    (put_manager : PluginManager plugins.Plugin → env.World → env.World)
    (is_connected : env.World → Bool)
    (manager-put_manager : (pm : PluginManager plugins.Plugin) (w : env.World)
      → manager (put_manager pm w) ≡ pm) where
  open env use {World}
  open plugins use {Plugin}

  abbrev pub Quiet : Plugin → Type 0
  Quiet p = IsQuiet env plugins manager put_manager is_connected manager-put_manager p

  abbrev pub AllQuiet : List (Option Plugin) → Type 0
  AllQuiet [] = Unit
  AllQuiet (none ∷ list) = AllQuiet list
  AllQuiet (some p ∷ list) = Quiet p × AllQuiet list

  -- `use` gets through a part of the plugins, which are added to the order, and through all of
  -- them if and only if it returns no error.
  abbrev pub Used : List Plugin → List (Option Plugin) → Result (Unit {0}) × World → Type 0
  Used before list r =
      IsConsistent env plugins (manager r.1)
      × (added : List Plugin) × ((manager r.1).order ≡ before ++ added)
      × (((r.0 ≡ ok tt) × (list ≡ map some added))
          ⊎ (((e : Error) × (r.0 ≡ err e))
              × (q : Option Plugin) × (rest : List (Option Plugin)) × (list
                  ≡ map some added ++ (q ∷ rest))))
