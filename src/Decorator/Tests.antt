-- ===== src/Decorator/Tests.antt =====
-- The theorems on the decorator's keys, selectors, labels and children at concrete objects.
use metacontroller.Prelude.{
  lookup_nested, cut, String, true, false, Option, none, some, List, [], ◌∷◌, ◌==◌, string_eq, Dict,
  lookup, insert, ok, ◌≡◌, refl, ◌↔◌, arith, select, get_or,
}
use metacontroller.Names.{claim_map_key, parse_api_version}
use metacontroller.Objects.{OwnerReference, PlainObject, plain_accessors}
use metacontroller.ObjectMap.{insert_object, insert_all, init_group, qualified_name}
use metacontroller.Composite.Samples.{kind_named, parent, owned_pod, orphan, controller_of, pods}
use metacontroller.Informers.Index.{first_controller}
use metacontroller.Decorator.Keys.{
  object, parent_queue_key, split_parent_queue_key, split_parent_queue_key-parent_queue_key,
}
use metacontroller.Decorator.Strings.{update_string_map, update_string_map-changed}
use metacontroller.Decorator.Selector.{
  ResourceRule, Discovery, DecoratorSelector, to_selector, store_selectors, add_rule, add_rules,
  matches, last_rule, accepted, matches-last_rule,
}
use metacontroller.Decorator.Children.{
  Attachment, Listing, belongs, add_listed, add_attachment, add_attachments, get_children,
  get_children-belongs,
}

split_parent_queue_key-parent_queue_key_example :
    (key : String) × (parent_queue_key plain_accessors (object orphan) ≡ some key)
    × (split_parent_queue_key key
        ≡ some (record {
          api_version = orphan.api_version;
          kind = orphan.gvk.kind;
          namespace = orphan.namespace;
          name = orphan.name;
        }))
split_parent_queue_key-parent_queue_key_example =
    split_parent_queue_key-parent_queue_key plain_accessors orphan (omega arith) (omega arith)
      (omega arith)

abbrev labels : Dict String String
labels = ("app", "a") ∷ ("tier", "b") ∷ []

abbrev updates : Dict String (Option String)
updates = ("app", some "a") ∷ ("gone", none) ∷ []

update_string_map-changed_example :
    ((update_string_map labels updates).1 ≡ false)
    ↔ ((k : String) → lookup k (update_string_map labels updates).0 ≡ lookup k labels)
unfolding lookup
update_string_map-changed_example = update_string_map-changed labels updates (refl, (refl, tt))

-- A selector is written as the value that the label `app` has.
abbrev discovery : Discovery String
discovery = record {
  get = λ api_version resource. some (record { group = ""; kind = "Pod" });
  as_selector = λ raw. some (λ strings. get_or "" "app" strings == raw);
}

abbrev rules : List (ResourceRule String)
rules =
    record {
      api_version = "v1";
      resource = "pods";
      label_selector = some "a";
      annotation_selector = none;
    }
    ∷ []

abbrev selector : DecoratorSelector
selector = record {
  label_selectors = ("Pod.", λ strings. get_or "" "app" strings == "a") ∷ [];
  annotation_selectors = ("Pod.", λ strings. true) ∷ [];
}

matches-last_rule_example :
    matches plain_accessors selector orphan labels []
    ≡ accepted discovery "Pod." labels [] (last_rule discovery "Pod." labels [] none rules)
unfolding add_rules add_rule to_selector store_selectors insert claim_map_key parse_api_version cut
matches-last_rule_example =
    matches-last_rule plain_accessors discovery rules selector orphan labels [] refl

abbrev listing : Listing PlainObject
listing = record {
  lister = λ child. some (λ scope. ok pods);
  resource = λ child. some (kind_named "Pod");
  controller_of = controller_of;
  decorator_annotation = λ o. "decorator";
  decorator_name = "decorator";
}

abbrev pods_attached : List Attachment
pods_attached = record { api_version = "v1"; resource = "pods" } ∷ []

get_children-belongs_example :
    ((ref : OwnerReference) × (listing.controller_of owned_pod ≡ some ref) × (ref.uid ≡ "p"))
    × (listing.decorator_annotation owned_pod ≡ listing.decorator_name)
unfolding get_children add_attachments add_attachment add_listed insert_all select belongs
    first_controller insert_object insert lookup lookup_nested init_group qualified_name
get_children-belongs_example =
    get_children-belongs plain_accessors listing parent pods_attached
      ((kind_named "Pod", ("ns/mine", owned_pod) ∷ []) ∷ []) (kind_named "Pod") "ns/mine" owned_pod
      refl refl
