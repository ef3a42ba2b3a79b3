-- ===== src/HotConfig/Manager.antt =====
-- The class `ConfigManager` (gateway_core/ConfigManager.{h,cpp}). The modules' watchers work on the
-- state of the application, a parameter, as do the checksum `std::hash` and what the disk says.
use aiot_edge_gateway.Prelude.{
  Bool, true, false, ◌&&◌, Option, none, some, List, [], ◌∷◌, ◌++◌, take, drop, if◌then◌else◌,
}
use aiot_edge_gateway.Prelude.Text.{Text, codes, eqb, is_empty, find, find_char}
use aiot_edge_gateway.HotConfig.Scan.{validate_json, object_length}
use aiot_edge_gateway.HotConfig.Value.{extract_value}

-- The three files, by their content.
pub record ConfigFiles : Type 0 where
  pub current : Option Text
  pub backup : Option Text
  pub temp : Option Text

-- What the calls on files meet: `current_opens` is whether a file that is there can be opened;
-- `backup_written` and `temp_written` are what a failing write leaves in the file.
pub record Disk : Type 0 where
  pub current_opens : Bool
  pub backup_written : Option Text
  pub backup_opens : Bool
  pub temp_opens : Bool
  pub temp_written : Option Text
  pub rename_works : Bool

-- The write of the backup is not checked.
unfoldable pub backup_current : Disk → ConfigFiles → Bool × ConfigFiles
backup_current disk f = elim f.current [
  | none ↦ (true, f)
  | some content ↦
      let copied : Text = elim disk.backup_written [ none ↦ content | some partial ↦ partial ] in
      if disk.current_opens
      then (if disk.backup_opens then (true, record f { backup = some copied }) else (false, f))
      else (true, f)
]

unfoldable pub atomic_write : Disk → Text → ConfigFiles → Bool × ConfigFiles
atomic_write disk content f =
    if disk.temp_opens
    then elim disk.temp_written [
      | some partial ↦ (false, record f { temp = some partial })
      | none ↦
          if disk.rename_works
          then (true, record f { current = some content; temp = none })
          else (false, record f { temp = some content })
    ]
    else (false, f)

pub record WatchEntry {ℓ} (App : Type ℓ) : Type ℓ where
  pub section : Text
  pub key : Text
  pub watcher : Text → App → Text × App

abbrev pub error_of {ℓ} : {App : Type ℓ} → WatchEntry App → Text → Text
error_of w result = codes "[" ++ (w.section ++ (codes "/" ++ (w.key ++ (codes "]: " ++ result))))

abbrev pub joined : List Text → Text
joined [] = []
joined (e ∷ []) = e
joined (e ∷ f ∷ es) = e ++ (codes "; " ++ joined (f ∷ es))

-- The position of the params object, or the refusal.
pub data Params : Type 0 where
  refuse : Text → Params
  params : Text → Params

unfoldable pub find_params : Text → Params
find_params payload = elim (find payload (codes "\"params\"") 0) [
  | none ↦ refuse (codes "NACK: missing params")
  | some params_start ↦ elim (find_char payload b'{' params_start) [
    | none ↦ refuse (codes "NACK: invalid params format")
    | some brace ↦ elim (object_length (drop brace payload) 0) [
      | none ↦ refuse (codes "NACK: params JSON 括号不匹配")
      | some n ↦ params (take n (drop brace payload))
    ]
  ]
]

module _ {ℓ} {App : Type ℓ} where
  unfoldable pub watch : List (WatchEntry App) → WatchEntry App → List (WatchEntry App)
  watch watchers w = watchers ++ (w ∷ [])

  -- What a watcher is told: the whole text, the value of its key, or nothing.
  abbrev pub value_for : Text → WatchEntry App → Option Text
  value_for json w =
      if is_empty w.section && is_empty w.key
      then some json
      else (let value = extract_value json w.section w.key in
          if is_empty value then none else some value)

  -- The errors of the watchers in turn, and what they made of the application.
  unfoldable pub notify_errors : List (WatchEntry App) → Text → App → List Text × App
  notify_errors [] json app = ([], app)
  notify_errors (w ∷ ws) json app = elim (value_for json w) [
    | none ↦ notify_errors ws json app
    | some value ↦
        let (result, app') = w.watcher value app in
        let (errors, app'') = notify_errors ws json app' in
        if eqb result (codes "ACK") then (errors, app'') else (error_of w result ∷ errors, app'')
  ]

  unfoldable pub notify_all : List (WatchEntry App) → Text → App → Text × App
  notify_all watchers json app =
      let (errors, app') = notify_errors watchers json app in
      elim errors [ [] ↦ (codes "ACK", app') | e ∷ es ↦ (codes "NACK: " ++ joined (e ∷ es), app') ]

  unfoldable pub load_persisted : Bool → List (WatchEntry App) → ConfigFiles → App → Bool × App
  load_persisted can_open watchers f app = elim f.current [
    | none ↦ (false, app)
    | some json ↦
        if can_open && validate_json json
        then (let (result, app') = notify_all watchers json app in (true, app'))
        else (false, app)
  ]

  -- The files are written, and the modules told: `hash` is the checksum, printed.
  unfoldable pub apply_params :
      (Text → Text)
      → List (WatchEntry App)
      → Disk
      → Text
      → ConfigFiles
      → App
      → Text × ConfigFiles × App
  apply_params hash watchers disk params_json f app =
      let (backed_up, f') = backup_current disk f in
      let (written, f'') = atomic_write disk params_json f' in
      let (answer, app') = notify_all watchers params_json app in
      if backed_up
      then (if written
          then (if eqb answer (codes "ACK")
              then (codes "ACK: config updated, hash=" ++ hash params_json, f'', app')
              else (answer, f'', app'))
          else (codes "NACK: 写入失败", f'', app))
      else (codes "NACK: 备份失败", f', app)

  unfoldable pub handle_config_update :
      (Text → Text)
      → List (WatchEntry App)
      → Disk
      → Text
      → ConfigFiles
      → App
      → Text × ConfigFiles × App
  handle_config_update hash watchers disk payload f app = elim (find_params payload) [
    | refuse answer ↦ (answer, f, app)
    | params params_json ↦
        if validate_json params_json
        then apply_params hash watchers disk params_json f app
        else (codes "NACK: params 不是合法 JSON", f, app)
  ]
