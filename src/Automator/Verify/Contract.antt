-- ===== src/Automator/Verify/Contract.antt =====
-- Where the values of a review contract come from.
use bowerbird.Base.{
  map, Result, err, type_error, value_error, key_error, overflow_error, os_error, index_error,
  attribute_error, policy_error, String, Bool, true, false, not, ◌≡◌, refl, sym, ap, subst, ◌∙◌,
  Option, or_else, List, [], ◌∷◌, every, if◌then◌else◌, ok, ok-injective, >>=-eq-ok, arith,
}
use bowerbird.Base.Text.{Text, codes, is_space, strip}
use bowerbird.Config.Value.{scalar, array, table, end, get}
use bowerbird.FileList.Story.{has}
use bowerbird.Automator.Json.{Json, Object, text_or_empty}
use bowerbird.Automator.Policy.{check, has_only}
use bowerbird.Automator.Policy.Merge.Pointwise.{IsUnique}
use bowerbird.Automator.StoryKeys.{is_empty}
use bowerbird.Automator.Verify.{
  ReviewContract, allowed_review_contract_keys, allowed_review_sources, is_none,
  sanitize_string_list, update_with, config_of, inline_review_contract, string_array, as_bool,
  check_lists, validate_review_contract, decoded, update_json, default_review_contract, Project,
  from_file, merge_review_contract, load_review_contract,
}
use bowerbird.Automator.Verify.Keys.{get-update_with, layered, get-layered}

check-ok : (b : Bool) {u : Unit {0}} → check b ≡ ok u → b ≡ true
check-ok true h = refl
check-ok false h = cc

check_lists-ok :
    (done order : List Text) {u : Unit {0}}
    → check_lists done order ≡ ok u
    → (is_none done ≡ false)
      × (is_none order ≡ false)
      × (every (has allowed_review_sources) order ≡ true)
unfolding check_lists
check_lists-ok done order h =
    let (_, c1, h1) = >>=-eq-ok (check (not (is_none done))) _ h in
    let (_, c2, c3) = >>=-eq-ok (check (not (is_none order))) _ h1 in
    (
      ground (arith, check-ok (not (is_none done)) c1),
      ground (arith, check-ok (not (is_none order)) c2),
      check-ok _ c3,
    )

-- The texts that are not empty.
abbrev pub non_empty : List Text → List Text
non_empty [] = []
non_empty ([] ∷ ss) = non_empty ss
non_empty ((c ∷ s) ∷ ss) = (c ∷ s) ∷ non_empty ss

-- The texts, without the spaces around them, where that leaves one.
abbrev pub trimmed_texts : List String → List Text
trimmed_texts values = non_empty (map (λ s. strip is_space (codes s)) values)

kept-non_empty :
    (s : Text) (rest ss : List Text)
    → rest ≡ non_empty ss
    → (if is_empty s then rest else s ∷ rest) ≡ non_empty (s ∷ ss)
kept-non_empty [] rest ss h = h
kept-non_empty (c ∷ s) rest ss h = ap (λ r. (c ∷ s) ∷ r) h

sanitize_string_list_lem :
    (values : List String) → sanitize_string_list values ≡ trimmed_texts values
unfolding sanitize_string_list
sanitize_string_list_lem [] = refl
sanitize_string_list_lem (value ∷ values) =
    kept-non_empty (strip is_space (codes value)) _ _ (sanitize_string_list_lem values)

module _ {R : Type 0} where
  -- The two lists are the sanitized ones of an object, are not empty, and the sources are known.
  abbrev pub IsSanitized : Option (Json R) → Option (Json R) → ReviewContract → Type 0
  IsSanitized done_json order_json review =
      (done order : List String) × (string_array done_json ≡ ok done)
      × (review.done_values ≡ trimmed_texts done)
      × (string_array order_json ≡ ok order)
      × (review.source_order ≡ trimmed_texts order)
      × (is_none review.done_values ≡ false)
      × (is_none review.source_order ≡ false)
      × (every (has allowed_review_sources) review.source_order ≡ true)

  validate-IsSanitized :
      (merged : Object R) (review : ReviewContract)
      → validate_review_contract merged ≡ ok review
      → IsSanitized (get "doneValues" merged) (get "sourceOrder" merged) review
  unfolding validate_review_contract
  validate-IsSanitized merged review h =
      let (_, _, h1) = >>=-eq-ok (check (has_only allowed_review_contract_keys merged)) _ h in
      let (_, _, h2) = >>=-eq-ok (string_array (get "blockingSeverity" merged)) _ h1 in
      let (done, is_done, h3) = >>=-eq-ok (string_array (get "doneValues" merged)) _ h2 in
      let (_, _, h4) = >>=-eq-ok (string_array (get "inProgressValues" merged)) _ h3 in
      let (order, is_order, h5) = >>=-eq-ok (string_array (get "sourceOrder" merged)) _ h4 in
      let (_, _, h6) = >>=-eq-ok (as_bool (get "syncSprintStatus" merged)) _ h5 in
      let (_, lists, h7) =
        >>=-eq-ok (check_lists (sanitize_string_list done) (sanitize_string_list order)) _ h6 in
      let same = ok-injective h7 in
      let (set, set', known) =
        check_lists-ok (sanitize_string_list done) (sanitize_string_list order) lists in
      let d : review.done_values ≡ sanitize_string_list done = sym (ap (λ r. r.done_values) same) in
      let o : review.source_order ≡ sanitize_string_list order =
        sym (ap (λ r. r.source_order) same) in
      (
        done,
        order,
        is_done,
        d ∙ sanitize_string_list_lem done,
        is_order,
        o ∙ sanitize_string_list_lem order,
        ap is_none d ∙ set,
        ap is_none o ∙ set',
        ap (every (has allowed_review_sources)) o ∙ known,
      )

module _ {R : Type 0} (project : Project R) where
  open project use {truthy, shown_as, contract_json}

  abbrev pub contract_path : Object R → Text
  contract_path contract =
      strip is_space (codes (text_or_empty truthy shown_as (get "contractPath" contract)))

  -- What the file of the contract says, and nothing where the contract names none.
  abbrev pub IsFileOf : Text → Object R → Type 0
  IsFileOf [] payload = payload ≡ end
  IsFileOf (c ∷ path) payload = contract_json (c ∷ path) ≡ ok (table payload)

  -- The objects that json reads have each key once.
  abbrev pub ReadsUnique : Type 0
  ReadsUnique = (path : Text) (d : Object R) → contract_json path ≡ ok (table d) → IsUnique d

  decoded-ok : (r : Result (Json R)) (v : Json R) → decoded project r ≡ ok v → r ≡ ok v
  decoded-ok (ok w) v h = h
  decoded-ok (err type_error) v h = cc
  decoded-ok (err value_error) v h = cc
  decoded-ok (err key_error) v h = cc
  decoded-ok (err overflow_error) v h = cc
  decoded-ok (err os_error) v h = cc
  decoded-ok (err index_error) v h = cc
  decoded-ok (err attribute_error) v h = cc
  decoded-ok (err policy_error) v h = cc

  update_json-ok :
      (merged base : Object R) (v : Json R)
      → update_json project merged v ≡ ok base
      → (payload : Object R) × (v ≡ table payload) × (update_with payload merged ≡ base)
  update_json-ok merged base (scalar x) h = cc
  update_json-ok merged base (array vs) h = cc
  update_json-ok merged base (table d) h = (d, refl, ok-injective h)

  -- The file is over the default, key by key.
  get-from_file :
      ReadsUnique
      → (path : Text) (base : Object R) → from_file project path ≡ ok base
      → (payload : Object R) × IsFileOf path payload
        × ((key : String)
            → get key base ≡ or_else (get key payload) (get key default_review_contract))
  unfolding get
  get-from_file unique [] base h = (end, refl, λ key. ap (get key) (sym (ok-injective h)))
  get-from_file unique (c ∷ path) base h =
      let (v, read, h1) = >>=-eq-ok (decoded project (contract_json (c ∷ path))) _ h in
      let (payload, is, same) = update_json-ok default_review_contract base v h1 in
      let held = decoded-ok (contract_json (c ∷ path)) v read ∙ ap ok is in
      (
        payload,
        held,
        λ key.
            ap (get key) (sym same)
            ∙ get-update_with payload default_review_contract key (unique (c ∷ path) payload held),
      )

  -- What a key of the review contract holds: the contract's own value, or the one in its
  -- configuration, or the file's, or the default.
  abbrev pub held_at : Object R → Object R → String → Option (Json R)
  held_at contract payload key = or_else (get key contract) (
      or_else (get key (config_of (get "config" contract)))
        (or_else (get key payload) (get key default_review_contract)))

  abbrev pub IsLayered : Object R → ReviewContract → Type 0
  IsLayered contract review =
      (payload : Object R) × IsFileOf (contract_path contract) payload
      × IsSanitized (held_at contract payload "doneValues") (held_at contract payload "sourceOrder")
          review

  -- Where a review contract is loaded, its values for done and its sources are the trimmed texts,
  -- empty ones left out, of the arrays that the step's contract has for them, or else its
  -- configuration, or else the file that it names, or else the default. Neither list is empty, and
  -- each source is one of the two. The objects that json reads have each key once.
  pub load_review_contract-IsLayered :
      ReadsUnique
      → (contract : Object R) (review : ReviewContract)
      → load_review_contract project contract ≡ ok review
      → IsLayered contract review
  unfolding load_review_contract merge_review_contract
  load_review_contract-IsLayered unique contract review h =
      let (merged, is_merged, h1) = >>=-eq-ok (merge_review_contract project contract) _ h in
      let (base, is_base, h2) =
        >>=-eq-ok (from_file project (contract_path contract)) _ is_merged in
      let same : update_with (inline_review_contract contract) base ≡ merged = ok-injective h2 in
      let (payload, is_file, held) = get-from_file unique (contract_path contract) base is_base in
      let valid =
        validate-IsSanitized (update_with (inline_review_contract contract) base) review
          (ap validate_review_contract same ∙ h1) in
      let below : (key : String) → layered contract base key ≡ held_at contract payload key = λ key.
        ap
          (λ o.
            or_else (get key contract) (or_else (get key (config_of (get "config" contract))) o))
          (held key) in
      (
        payload,
        is_file,
        subst (λ o. IsSanitized (held_at contract payload "doneValues") o review)
            (get-layered contract base "sourceOrder" refl ∙ below "sourceOrder")
            (subst
              (λ d.
                IsSanitized d
                  (get "sourceOrder" (update_with (inline_review_contract contract) base)) review)
              (get-layered contract base "doneValues" refl ∙ below "doneValues") valid),
      )
