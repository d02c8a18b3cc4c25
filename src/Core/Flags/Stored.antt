-- ===== src/Core/Flags/Stored.antt =====
-- RULES/core/flags.go: where the values of the flags come from, and where they are stored.
use dbt_rules.Base.{
  ℕ, String, ◌<>◌, Bool, true, Option, none, some, [], ◌∷◌, get_elem?, nat_eq, string_eq,
  if◌then◌else◌, Result, ok, ◌>>=◌, ◌>>◌,
}
use dbt_rules.Base.Int.{Parsed}
use dbt_rules.Base.Map.{Map, insert}
use dbt_rules.Base.Text.Paths.{join_path, dir}
use dbt_rules.Core.Input.{GeneratorInput, Outcome, done, error, fatal}
use dbt_rules.Core.Context.AddBuildStep.{Os}
use dbt_rules.Core.Flags.{flags_file_name, FlagInfo, Floats, FlagState, flag_info, message}

module _ (input : GeneratorInput) {F : Type 0} (floats : Floats F) where
  unfoldable pub infos : FlagState F → Map String ℕ → Map String FlagInfo
  unfolding flag_info
  infos st [] = []
  infos st ((name, id) ∷ m) = elim (get_elem? st.flags id) [
    | none ↦ infos st m
    | some flag ↦ insert name (flag_info input floats flag) (infos st m)
  ]

  abbrev pub info_values : Map String FlagInfo → Map String String
  info_values [] = []
  info_values ((name, info) ∷ m) = (name, info.value) ∷ info_values m

  write_message : Option String → String → Result (Unit {0})
  write_message none msg = ok tt
  write_message (some err) msg = message input floats (msg <> ": " <> err)

  marshalled : Outcome String → Result String
  marshalled (done text) = ok text
  marshalled (error err) = do
    message input floats ("failed to marshal config flag values: " <> err)
    ok ""

  store_flags : (Map String String → Outcome String) → Os → Map String String → Result (Unit {0})
  unfolding write_message marshalled
  store_flags marshal os values = do
    text ← marshalled (marshal values)
    (let path = join_path (input.output_dir ∷ flags_file_name ∷ []) in
        (do
          write_message (os.mkdir_all (dir path)) "Failed to create directory for flags file"
          write_message (os.write_file path text 0o755) "failed to write config flag values"))

  -- encoding/json's Marshal is the argument `marshal`.
  unfoldable pub lock_and_get_flags :
      (Map String String → Outcome String)
      → Os
      → Bool
      → FlagState F
      → Result (Map String FlagInfo × FlagState F)
  unfolding store_flags infos
  lock_and_get_flags marshal os store_persisted_flags st = do
    (let flag_infos = infos st st.registered_flags in
        (do
          (if store_persisted_flags then store_flags marshal os (info_values flag_infos) else ok tt)
          ok (flag_infos, record st { flags_locked = true })))

-- What reading FLAGS.json gives.
pub data FlagsFile : Type 0 where
  contents : String → FlagsFile
  not_exist : FlagsFile
  read_error : String → FlagsFile

-- for name, value := range from { into[name] = value }
unfoldable pub copy_flags : Map String String → Map String String → Map String String
copy_flags [] into = into
copy_flags ((name, value) ∷ m) into = copy_flags m (insert name value into)

module _ (input : GeneratorInput) (unmarshal : String → Parsed (Map String String)) where
  -- The map that is decoded into keeps what it got before an error.
  decoded : Parsed (Map String String) → Result (Map String String)
  decoded p = elim p.error [
    | none ↦ ok p.value
    | some err ↦ do fatal input "" ("failed to unmarshal config flags: " <> err); ok p.value
  ]

  unfoldable pub persisted_flags : FlagsFile → Result (Map String String)
  unfolding decoded
  persisted_flags (contents text) = decoded (unmarshal text)
  persisted_flags not_exist = ok []
  persisted_flags (read_error err) = do
    fatal input "" ("failed to read config flags: " <> err)
    ok []

  -- encoding/json's Unmarshal is the argument `unmarshal`: what it stores, and its error.
  unfoldable pub get_flag_values : FlagsFile → Result (Map String String)
  unfolding copy_flags persisted_flags
  get_flag_values file = do
    persisted ← persisted_flags file
    ok (copy_flags input.cmdline_flags (copy_flags persisted (copy_flags input.workspace_flags [])))
