-- ===== src/Engine/Turn.antt =====
-- One round of the loop of `InferenceStage::run` (gateway_engine/pipeline/stages/InferenceStage.cpp,
-- lines 213-287). What the runtime answers to the calls of the round is a parameter.
use aiot_edge_gateway.Prelude.{
  ℕ, zero, suc, ◌+◌, ◌*◌, ◌/◌, ◌^◌, ◌%◌, ◌≡◌, ◌⊎◌, refl, ap, Bool, Option, none, some, List, [],
  ◌∷◌, length, take, arith, ◌==◌, if◌then◌else◌,
}
use aiot_edge_gateway.Engine.Inference.{InferenceStage, TensorAttr, blank}

-- A frame by its number, and whether its pixels have been prepared.
pub record Frame : Type 0 where
  pub number : ℕ
  pub is_preprocessed : Bool

-- The fields of `rknn_input` that differ from call to call.
pub record RknnInput : Type 0 where
  pub index : ℕ
  pub size : ℕ

-- An output of the runtime: its size in bytes, and its floats, as words.
pub record RknnOutput : Type 0 where
  pub size : ℕ
  pub words : List ℕ

pub record Output : Type 0 where
  pub words : List ℕ
  pub dims : List ℕ

pub record InferenceResult : Type 0 where
  pub frame : Frame
  pub outputs : List Output

-- The answers to `rknn_inputs_set`, `rknn_run` and `rknn_outputs_get`; the last gives `n` outputs.
pub record Answers : Type 0 where
  pub inputs_set : List RknnInput → Bool
  pub runs : Bool
  pub outputs_got : Bool
  pub outputs : ℕ → RknnOutput

-- From the i-th on, `n` of them.
unfoldable pub make_inputs : ℕ → ℕ → ℕ → List RknnInput
make_inputs input_size zero i = []
make_inputs input_size (suc n) i =
    record { index = i; size = input_size * input_size * 3 % 2 ^ 32 }
    ∷ make_inputs input_size n (i + 1)

abbrev attr_at : List TensorAttr → ℕ → TensorAttr
attr_at [] i = blank i
attr_at (attr ∷ attrs) zero = attr
attr_at (attr ∷ attrs) (suc i) = attr_at attrs i

unfoldable pub copy_outputs : (ℕ → RknnOutput) → List TensorAttr → ℕ → ℕ → List Output
copy_outputs outputs attrs zero i = []
copy_outputs outputs attrs (suc n) i =
    record {
      words = take ((outputs i).size / 4) (outputs i).words;
      dims = take (attr_at attrs i).n_dims (attr_at attrs i).dims;
    }
    ∷ copy_outputs outputs attrs n (i + 1)

-- What the round puts into the queue for the next stage: `popped` is none where the queue was empty.
unfoldable pub infer : Answers → Option Frame → InferenceStage → Option InferenceResult
infer answers none s = none
infer answers (some frame) s =
    if frame.is_preprocessed
    then (if s.ctx == 0
        then none
        else if answers.inputs_set (make_inputs s.input_size s.io_num.n_input 0)
        then (if answers.runs
            then (if answers.outputs_got
                then some (record {
                  frame = frame;
                  outputs = copy_outputs answers.outputs s.output_attrs s.io_num.n_output 0;
                })
                else none)
            else none)
        else none)
    else none

length-copy_outputs :
    (outputs : ℕ → RknnOutput) (attrs : List TensorAttr) (n i : ℕ)
    → length (copy_outputs outputs attrs n i) ≡ n
unfolding copy_outputs
length-copy_outputs outputs attrs zero i = refl
length-copy_outputs outputs attrs (suc n) i = ap suc (length-copy_outputs outputs attrs n (i + 1))

-- A round gives nothing on, or a result of the frame that it took, with an output for each output of
-- the model.
pub infer_lem :
    (answers : Answers) (frame : Frame) (s : InferenceStage)
    → (infer answers (some frame) s ≡ none)
      ⊎ ((r : InferenceResult) × (infer answers (some frame) s ≡ some r)
          × (r.frame ≡ frame)
          × (length r.outputs ≡ s.io_num.n_output))
unfolding infer
infer_lem answers frame s =
    ground (arith, length-copy_outputs answers.outputs s.output_attrs s.io_num.n_output 0)
