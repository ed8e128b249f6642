-- ===== src/Config/Tests.antt =====
-- Runs of the merge on small tables of texts, and the theorems at them.
use bowerbird.Base.{
  String, ◌<>◌, str_eq, eq_iff, ◌≡◌, refl, ◌||◌, some, inl, [], ◌∷◌, arith, Result, ok, err,
  type_error, if◌then◌else◌,
}
use bowerbird.Base.Script.{done, out, note}
use bowerbird.Config.Value.{Value, scalar, array, table, nil, cons, Fields, end, field, get, put}
use bowerbird.Config.Merge.{
  deep_merge, merge_fields, merge_by_key, merge_arrays, detect_keyed_merge_field, base_step,
  override_step, index_get, index_put, extract, split_dots,
}
use bowerbird.Config.Merge.Tables.{NodupKeys, MergedAt, get-merge_fields}
use bowerbird.Config.Merge.Shape.{IsDict}
use bowerbird.Config.Merge.Index.{IsKeyEquality, last_with, last_index}
use bowerbird.Config.Merge.Places.{merge_by_key_lem}
use bowerbird.Config.Merge.Total.{IsMergeable, deep_merge_total}
use bowerbird.Config.Layers.{merge_layers, extract-merge_layers}
use bowerbird.Config.Files.{Files, Reading, missing, parsed, malformed}
use bowerbird.Config.Central
use bowerbird.Config.Central.{merge_four}
use bowerbird.Config.Custom
use bowerbird.Config.Custom.{merge_three, nearest_root}
use bowerbird.Config.Scripts.{main-merge_four}
use bowerbird.Config.Roots.{IsNearest, nearest_root-IsNearest, main-merge_three}

abbrev Texts : Type 0
Texts = Fields String

str_eq-IsKeyEquality : IsKeyEquality str_eq
str_eq-IsKeyEquality = record {
  symm = λ a b. ground (arith, eq_iff a b, eq_iff b a);
  trans = λ a b c h. ground (arith, eq_iff a b, eq_iff b c, eq_iff a c);
}

abbrev agent : String → String → Value String
agent code title = table (field "code" (scalar code) (field "title" (scalar title) end))

abbrev base_fields : Texts
base_fields =
    field "core" (table (field "name" (scalar "a") (field "lang" (scalar "en") end)))
      (field "agents" (array (cons (agent "x" "1") (cons (agent "y" "2") nil))) end)

abbrev override_fields : Texts
override_fields =
    field "core" (table (field "name" (scalar "b") end))
      (field "agents" (array (cons (agent "y" "3") (cons (agent "z" "4") nil))) end)

abbrev merged_fields : Texts
merged_fields = field "core" (table (field "name" (scalar "b") (field "lang" (scalar "en") end))) (
    field "agents" (array (cons (agent "x" "1") (cons (agent "y" "3") (cons (agent "z" "4") nil))))
      end)

merge : Value String → Value String → Result (Value String)
unfolding deep_merge merge_arrays merge_by_key detect_keyed_merge_field base_step override_step
    index_get index_put get put
merge = deep_merge str_eq

merge_example : merge (table base_fields) (table override_fields) ≡ ok (table merged_fields)
unfolding merge
merge_example = refl

unhashable :
    merge_by_key str_eq (table (field "code" (array nil) end) ∷ []) [] "code" ≡ err type_error
unfolding merge_by_key base_step get
unhashable = refl

split_example : split_dots "a.b..c" ≡ "a" ∷ "b" ∷ "" ∷ "c" ∷ []
unfolding split_dots
split_example = refl

merged_result :
    deep_merge str_eq (table base_fields) (table override_fields) ≡ ok (table merged_fields)
unfolding merge
merged_result = refl

fields_result : merge_fields str_eq base_fields override_fields ≡ ok merged_fields
unfolding merge
fields_result = refl

override_NodupKeys : NodupKeys override_fields
unfolding get
override_NodupKeys = (refl, (refl, tt))

agent-IsDict : (code title : String) → IsDict (agent code title)
unfolding IsDict get
agent-IsDict code title = ((refl, (refl, tt)), (tt, (tt, tt)))

base_IsDict : IsDict (table base_fields)
unfolding IsDict get
base_IsDict = (
  (refl, (refl, tt)),
  (((refl, (refl, tt)), (tt, (tt, tt))), ((agent-IsDict "x" "1", (agent-IsDict "y" "2", tt)), tt)),
)

override_IsDict : IsDict (table override_fields)
unfolding IsDict get
override_IsDict = (
  (refl, (refl, tt)),
  (((refl, tt), (tt, tt)), ((agent-IsDict "y" "3", (agent-IsDict "z" "4", tt)), tt)),
)

get-merge_fields_example :
    MergedAt str_eq (get "lang" base_fields) (get "lang" override_fields) (get "lang" merged_fields)
get-merge_fields_example =
    get-merge_fields str_eq "lang" base_fields override_fields override_NodupKeys fields_result

empty_IsDict : IsDict {S = String} (table end)
unfolding IsDict
empty_IsDict = (tt, tt)

layers_result :
    merge_layers str_eq (table base_fields) (table override_fields ∷ table end ∷ [])
    ≡ ok (table merged_fields)
unfolding merge
layers_result = refl

keyed_result :
    merge_by_key str_eq (agent "x" "1" ∷ agent "y" "2" ∷ []) (agent "y" "3" ∷ []) "code"
    ≡ ok (agent "x" "1" ∷ agent "y" "3" ∷ [])
unfolding merge
keyed_result = refl

base_IsMergeable : IsMergeable (table base_fields)
unfolding IsMergeable get
base_IsMergeable = ((tt, (tt, tt)), (((tt, tt), ((tt, tt), tt)), tt))

override_IsMergeable : IsMergeable (table override_fields)
unfolding IsMergeable get
override_IsMergeable = ((tt, tt), (((tt, tt), ((tt, tt), tt)), tt))

extract-merge_layers_example :
    extract (table merged_fields) ("core" ∷ "name" ∷ []) ≡ some (scalar "b")
unfolding extract get
extract-merge_layers_example =
    extract-merge_layers str_eq ("core" ∷ "name" ∷ []) (table base_fields) []
      (table override_fields) (table end ∷ []) "b" tt override_IsDict (empty_IsDict, tt) refl
      (inl refl, tt) layers_result

merge_by_key_lem_example :
    (last_with str_eq "code" "y" (agent "x" "1" ∷ agent "y" "3" ∷ []) ≡ some (agent "y" "3"))
    × (last_index str_eq "code" "y" (agent "x" "1" ∷ agent "y" "3" ∷ []) ≡ some 1)
unfolding get
merge_by_key_lem_example =
    merge_by_key_lem str_eq str_eq-IsKeyEquality "code" (agent "x" "1" ∷ agent "y" "2" ∷ [])
      (agent "y" "3" ∷ []) (agent "x" "1" ∷ agent "y" "3" ∷ []) "y" keyed_result

deep_merge_total_example :
    (r : Value String) × (deep_merge str_eq (table base_fields) (table override_fields) ≡ ok r)
    × IsMergeable r
deep_merge_total_example =
    deep_merge_total str_eq str_eq-IsKeyEquality (table base_fields) (table override_fields)
      base_IsMergeable override_IsMergeable

-- A project whose team file is the base and whose user file is the override.
reading : String → Reading String
reading path =
    if str_eq path "p/_bmad/config.toml" || str_eq path "p/s/customize.toml"
    then parsed (table base_fields)
    else if str_eq path "p/_bmad/custom/config.toml" || str_eq path "p/_bmad/custom/s.toml"
    then parsed (table override_fields)
    else if str_eq path "p/_bmad/config.user.toml"
    then malformed "line 1"
    else missing

abbrev disk : Files String
disk = record {
  FilePath = String;
  join = λ path name. path <> "/" <> name;
  show = λ path. path;
  name = λ path. "s";
  present = λ path. str_eq path "p/_bmad";
  lineage = λ path. path ∷ "p" ∷ "" ∷ [];
  read = reading;
  dumps = λ v. ok "{}";
}

nearest_root-IsNearest_example : IsNearest disk ("p/s" ∷ "p" ∷ []) (some "p")
unfolding nearest_root
nearest_root-IsNearest_example = nearest_root-IsNearest disk ("p/s" ∷ "p" ∷ [])

no_override : deep_merge str_eq (table base_fields) (table end) ≡ ok (table base_fields)
unfolding merge
no_override = refl

overridden :
    deep_merge str_eq (table base_fields) (table override_fields) ≡ ok (table merged_fields)
unfolding merge
overridden = refl

no_more : deep_merge str_eq (table merged_fields) (table end) ≡ ok (table merged_fields)
unfolding merge
no_more = refl

main-merge_four_example :
    Central.main str_eq disk "p" ("core" ∷ []) []
    ≡ done tt (note "warning: failed to parse p/_bmad/config.user.toml: line 1\n" ∷ out "{}\n" ∷ [])
unfolding reading
main-merge_four_example =
    main-merge_four str_eq disk "p" ("core" ∷ []) [] base_fields (table base_fields)
      (table merged_fields) (table merged_fields) "{}" refl tt tt tt no_override overridden no_more
      refl

main-merge_three_example : Custom.main str_eq disk "p/s" "q" [] [] ≡ done tt (out "{}\n" ∷ [])
unfolding reading nearest_root
main-merge_three_example =
    main-merge_three str_eq disk "p/s" "q" [] [] "p" base_fields (table merged_fields)
      (table merged_fields) "{}" refl refl tt tt overridden no_more refl
