-- ===== src/TestCase/Stream.antt =====
-- hegel-c/src/native/core/state.rs: `FamilyCore` and `NativeTestCase`. The model is of a family with one stream:
-- it has no clones and no observer, and the family leaves out what draws do not read (target observations,
-- events, the settings of stateful tests). `G` is the type of generation parameters, `R` of the random generator.
use hegel_rust.Base.{ℕ, ◌-◌, ◌^◌, max, Bool, false, List, [], length, Option, none, some}
use hegel_rust.Choices.Kinds.{ChoiceNode}
use hegel_rust.Database.{ChoiceValue}
use hegel_rust.ExecCache.{Status}
use hegel_rust.TestCase.Span.{Span}

pub data ChoiceTemplateKind : Type 0 where
  simplest : ChoiceTemplateKind

pub record ChoiceTemplate : Type 0 where
  pub kind : ChoiceTemplateKind
  pub count : Option ℕ

pub record FamilyCore (G : Type 0) : Type 0 where
  pub conclusion : Option (Status × Option (List ℕ))
  pub total_draws : ℕ
  pub budget : ℕ
  pub fresh_ids : List ℕ
  pub generation_parameters : Option G

-- The innermost open span is the head of `span_stack`, and its frame the head of
-- `labels_for_structure_stack`. A set of labels is a list without repetition.
pub record NativeTestCase (G R : Type 0) : Type 0 where
  pub prefix : List ChoiceValue
  pub prefix_nodes : Option (List ChoiceNode)
  pub rng : Option R
  pub max_size : ℕ
  pub nodes : List ChoiceNode
  pub frozen : Bool
  pub family : FamilyCore G
  pub spans : List Span
  pub span_stack : List ℕ
  pub has_discards : Bool
  pub tags : List ℕ
  pub labels_for_structure_stack : List (List ℕ)
  pub trailing_template : Option ChoiceTemplate

abbrev pub usize_max : ℕ
usize_max = 2 ^ 64 - 1

abbrev pub buffer_size : ℕ
buffer_size = 8192

module _ {G : Type 0} where
  abbrev pub new_family : ℕ → FamilyCore G
  new_family budget = record {
    conclusion = none;
    total_draws = 0;
    budget = budget;
    fresh_ids = [];
    generation_parameters = none;
  }

  unfoldable pub conclude_family : Status → Option (List ℕ) → FamilyCore G → FamilyCore G
  conclude_family status origin family = elim family.conclusion [
    | some c ↦ family
    | none ↦ record family { conclusion = some (status, origin) }
  ]

  unfoldable pub family_status : FamilyCore G → Option Status
  family_status family = elim family.conclusion [ some c ↦ some c.0 | none ↦ none ]

module _ {G R : Type 0} where
  unfoldable pub for_choices_and_template :
      List ChoiceValue → Option (List ChoiceNode) → Option ChoiceTemplate → ℕ → NativeTestCase G R
  for_choices_and_template choices prefix_nodes trailing max_size =
      let size = max max_size (length choices) in
      record {
        prefix = choices;
        prefix_nodes = prefix_nodes;
        rng = none;
        max_size = size;
        nodes = [];
        frozen = false;
        family = new_family (elim trailing [ some t ↦ size | none ↦ usize_max ]);
        spans = [];
        span_stack = [];
        has_discards = false;
        tags = [];
        labels_for_structure_stack = [];
        trailing_template = trailing;
      }

  unfoldable pub for_simplest : ℕ → NativeTestCase G R
  unfolding for_choices_and_template
  for_simplest max_size =
      for_choices_and_template [] none
        (some (record { kind = ChoiceTemplateKind.simplest; count = none })) max_size

  unfoldable pub for_choices : List ChoiceValue → Option (List ChoiceNode) → NativeTestCase G R
  unfolding for_choices_and_template
  for_choices choices prefix_nodes =
      for_choices_and_template choices prefix_nodes none (length choices)

  unfoldable pub with_random_and_params : R → G → NativeTestCase G R → NativeTestCase G R
  with_random_and_params rng params s = record s {
    rng = some rng;
    family = record s.family { budget = s.max_size; generation_parameters = some params };
  }

  unfoldable pub new_random_with_params : R → G → NativeTestCase G R
  unfolding with_random_and_params for_choices_and_template
  new_random_with_params rng params =
      with_random_and_params rng params (for_choices_and_template [] none none buffer_size)

  unfoldable pub status : NativeTestCase G R → Option Status
  unfolding family_status
  status s = family_status s.family

  unfoldable pub conclude : Status → Option (List ℕ) → NativeTestCase G R → NativeTestCase G R
  unfolding conclude_family
  conclude verdict origin s = record s { family = conclude_family verdict origin s.family }
