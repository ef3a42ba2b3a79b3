-- ===== src/Engine/Inference.antt =====
-- The class `InferenceStage` (gateway_engine/pipeline/stages/InferenceStage.{h,cpp}), as far as it
-- loads and switches models. The RKNN runtime is not under src/: what its calls answer during one
-- load is a parameter, and the stage carries the list of the contexts that the runtime holds.
use aiot_edge_gateway.Prelude.{
  ℕ, ◌+◌, ◌*◌, ◌^◌, ◌%◌, suc, zero, Bool, true, false, Option, none, some, List, [], ◌∷◌, take,
  length, ◌==◌, ltb, if◌then◌else◌,
}
use aiot_edge_gateway.Prelude.Text.{Text, codes, eqb, is_empty}
use aiot_edge_gateway.Hash.Digest.{sha256_file}

-- The fields of `rknn_tensor_attr` that the stage reads; the dimensions of a tensor are below 2^31.
pub record TensorAttr : Type 0 where
  pub index : ℕ
  pub dims : List ℕ
  pub n_dims : ℕ
  pub is_nchw : Bool
  pub is_float32 : Bool

pub record IoNum : Type 0 where
  pub n_input : ℕ
  pub n_output : ℕ

-- What one load meets: the bytes of the files that open, and what the reads return (0 for an error);
-- the context that `rknn_init` makes of a model's bytes, and the answers of `rknn_query` about it.
pub record Load : Type 0 where
  pub opened : Text → Option (List ℕ)
  pub reads : List ℕ
  pub new_ctx : List ℕ → Option ℕ
  pub io_answer : Option IoNum
  pub input_answer : ℕ → Option TensorAttr
  pub output_answer : ℕ → Option TensorAttr

-- `input_buf_` by its length, since nothing reads it. `contexts` are those that live, the latest
-- first, and `fatals` what the callback was told.
pub record InferenceStage : Type 0 where
  pub ctx : ℕ
  pub io_num : IoNum
  pub input_attrs : List TensorAttr
  pub output_attrs : List TensorAttr
  pub model_path : Text
  pub input_buf : ℕ
  pub input_size : ℕ
  pub has_fatal_cb : Bool
  pub fatals : List Text
  pub contexts : List ℕ

abbrev pub no_io : IoNum
no_io = record { n_input = 0; n_output = 0 }

abbrev pub new_stage : Text → Bool → InferenceStage
new_stage path has_fatal_cb = record {
  ctx = 0;
  io_num = no_io;
  input_attrs = [];
  output_attrs = [];
  model_path = path;
  input_buf = 0;
  input_size = 0;
  has_fatal_cb = has_fatal_cb;
  fatals = [];
  contexts = [];
}

unfoldable pub read_model : ℕ → ℕ → List ℕ → ℕ
read_model model_size bytes_read [] = bytes_read
read_model model_size bytes_read (n ∷ reads) =
    let rest = read_model model_size (bytes_read + n) reads in
    if ltb bytes_read model_size then (if n == 0 then bytes_read else rest) else bytes_read

abbrev pub blank : ℕ → TensorAttr
blank i = record { index = i; dims = []; n_dims = 0; is_nchw = true; is_float32 = true }

abbrev pub blanks : ℕ → List TensorAttr
blanks zero = []
blanks (suc n) = blank 0 ∷ blanks n

-- The vector of `n` attributes from the i-th on, and whether every query succeeds: after a failure
-- the others are as `resize` left them.
unfoldable pub query_attrs : (ℕ → Option TensorAttr) → ℕ → ℕ → Bool × List TensorAttr
query_attrs answer zero i = (true, [])
query_attrs answer (suc n) i = elim (answer i) [
  | none ↦ (false, blank i ∷ blanks n)
  | some attr ↦ let (ok, attrs) = query_attrs answer n (i + 1) in (ok, attr ∷ attrs)
]

abbrev pub remove : ℕ → List ℕ → List ℕ
remove c [] = []
remove c (d ∷ ds) = let rest = remove c ds in if c == d then ds else d ∷ rest

-- `rknn_destroy`.
abbrev pub release : ℕ → InferenceStage → InferenceStage
release c s = record s { contexts = remove c s.contexts }

unfoldable pub destroy_rknn : InferenceStage → InferenceStage
destroy_rknn s = if s.ctx == 0 then s else record s { ctx = 0; contexts = remove s.ctx s.contexts }

abbrev pub dim : List ℕ → ℕ → ℕ
dim [] i = 0
dim (d ∷ ds) zero = d
dim (d ∷ ds) (suc i) = dim ds i

abbrev pub product : List ℕ → ℕ → ℕ
product [] total = total
product (d ∷ ds) total = product ds (total * d % 2 ^ 64)

abbrev pub size_of : TensorAttr → ℕ
size_of attr =
    let h = if attr.is_nchw then dim attr.dims 2 else dim attr.dims 1 in
    let w = if attr.is_nchw then dim attr.dims 3 else dim attr.dims 2 in if ltb w h then h else w

abbrev pub buffer_of : TensorAttr → ℕ
buffer_of attr =
    let total = product (take attr.n_dims attr.dims) 1 in
    if attr.is_float32 then total * 4 % 2 ^ 64 else total

unfoldable pub prepare_input : InferenceStage → InferenceStage
prepare_input s = elim s.input_attrs [
  | [] ↦ s
  | attr ∷ attrs ↦ record s { input_size = size_of attr; input_buf = buffer_of attr }
]

-- From the first query on.
unfoldable pub query_model : Load → InferenceStage → Bool × InferenceStage
query_model load s = elim load.io_answer [
  | none ↦ (false, destroy_rknn s)
  | some io ↦
      let (ins_ok, ins) = query_attrs load.input_answer io.n_input 0 in
      let (outs_ok, outs) = query_attrs load.output_answer io.n_output 0 in
      if ins_ok
      then (if outs_ok
          then (
            true,
            prepare_input (record s { io_num = io; input_attrs = ins; output_attrs = outs }),
          )
          else (
            false,
            destroy_rknn (record s { io_num = io; input_attrs = ins; output_attrs = outs }),
          ))
      else (
        false,
        destroy_rknn
            (record s { io_num = io; input_attrs = ins; output_attrs = blanks io.n_output }),
      )
]

unfoldable pub init_rknn : Load → Text → InferenceStage → Bool × InferenceStage
init_rknn load path s = elim (load.opened path) [
  | none ↦ (false, s)
  | some model_data ↦
      if read_model (length model_data) 0 load.reads == length model_data
      then elim (load.new_ctx model_data) [
        | none ↦ (false, record s { ctx = 0 })
        | some c ↦ query_model load (record s { ctx = c; contexts = c ∷ s.contexts })
      ]
      else (false, s)
]

-- Whether the file may be loaded: its digest is the expected one, or none is.
unfoldable pub check_model : (Text → Option (List ℕ)) → Text → Text → Bool
check_model files path expected_sha256 =
    if is_empty expected_sha256
    then true
    else (let actual_sha256 = sha256_file (files path) in
        if is_empty actual_sha256 then false else eqb actual_sha256 expected_sha256)

abbrev pub rollback_fatal : Text
rollback_fatal = codes "MODEL_ROLLBACK_FATAL: 新旧模型均加载失败"

-- The members as they were, whatever the failed load left.
unfoldable pub roll_back : InferenceStage → InferenceStage → InferenceStage
roll_back old s =
    let cleared = destroy_rknn s in
    let restored : InferenceStage = record {
      ctx = old.ctx;
      io_num = old.io_num;
      input_attrs = old.input_attrs;
      output_attrs = old.output_attrs;
      model_path = old.model_path;
      input_buf = old.input_buf;
      input_size = old.input_size;
      has_fatal_cb = cleared.has_fatal_cb;
      fatals = cleared.fatals;
      contexts = cleared.contexts;
    } in
    if restored.ctx == 0
    then (if restored.has_fatal_cb
        then record restored { fatals = rollback_fatal ∷ restored.fatals }
        else restored)
    else restored

unfoldable pub clear_model : InferenceStage → InferenceStage
clear_model s = record s {
  ctx = 0;
  input_buf = 0;
  input_attrs = [];
  output_attrs = [];
  io_num = no_io;
  input_size = 0;
}

unfoldable pub switch_model :
    (Text → Option (List ℕ)) → Load → Text → Text → InferenceStage → Bool × InferenceStage
switch_model files load path expected_sha256 s =
    if check_model files path expected_sha256
    then (let (ok, s') = init_rknn load path (clear_model s) in
        if ok
        then (true, record (if s.ctx == 0 then s' else release s.ctx s') { model_path = path })
        else (false, roll_back s s'))
    else (false, s)
