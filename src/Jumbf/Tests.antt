-- ===== src/Jumbf/Tests.antt =====
-- Runs of the writer, the reader and the URI functions on small inputs.
use c2pa_rs_html.Prelude.{
  bytes, replicate, ◌≡◌, refl, ℕ, ◌+◌, List, [], ◌∷◌, ◌++◌, some, true, length, arith, Text,
}
use c2pa_rs_html.Result.{ok, err, stuck}
use c2pa_rs_html.Error.{Error}
use c2pa_rs_html.Io.{At-start}
use c2pa_rs_html.Jumbf.Boxes.{
  DescriptionBox, DataBox, DataBoxes, super, json, cbor, nil, cons, new_description,
  invalid_jumb_box,
}
use c2pa_rs_html.Jumbf.Utf8.{is_utf8}
use c2pa_rs_html.Jumbf.Boxes.{label_str}
use c2pa_rs_html.Jumbf.Write.{
  write_store, write_box, box_size, write_description, write_description_payload, write_c_string,
  write_box_id, write_opt,
}
use c2pa_rs_html.Jumbf.ReadSuper.{read_store, read_super_box, read_boxes}
use c2pa_rs_html.Jumbf.Header.{box_type}
use c2pa_rs_html.Jumbf.RoundTrip.Description.{IsDescription}
use c2pa_rs_html.Jumbf.RoundTrip.Size.{
  IsBox, is_super, is_json, is_cbor, is_nil, is_cons, box_size-eq-length,
}
use c2pa_rs_html.Jumbf.RoundTrip.Leaf.{as_read}
use c2pa_rs_html.Jumbf.RoundTrip.Super.{read_super_box-write_box}
use c2pa_rs_html.Jumbf.RoundTrip.Store.{read_store-write_store, new_description-IsDescription}
use c2pa_rs_html.Jumbf.RoundTrip.Limits.{read_boxes_hangs, read_super_box-childless}
use c2pa_rs_html.Jumbf.Labels.{
  to_assertion_uri, to_absolute_uri, to_relative_uri, manifest_label_from_uri,
  assertion_label_from_uri, box_name_from_uri, is_relative_url,
}
use c2pa_rs_html.Jumbf.Labels.ManifestParts.{print, manifest_label_to_parts}
use c2pa_rs_html.Jumbf.Labels.ManifestParts.Laws.{IsPart, v2, manifest_label_to_parts-print}
use c2pa_rs_html.Jumbf.Labels.Uris.{
  IsLabel, labels_from_assertion_uri, to_absolute_uri-to_relative_uri,
}

abbrev kind_of_box : List ℕ
kind_of_box = replicate 16 7

abbrev described : Text → DescriptionBox
described l = new_description l (some kind_of_box)

abbrev claim : DataBox
claim = super (described (bytes "c2pa.claim")) (cons (cbor (1 ∷ 2 ∷ 3 ∷ [])) nil)

abbrev parts : DataBoxes
parts = cons claim (cons (json (bytes "{}")) nil)

abbrev manifest : DataBox
manifest = super (described (bytes "c2pa")) parts

claim_described : IsDescription (described (bytes "c2pa.claim"))
unfolding is_utf8
claim_described = new_description-IsDescription (bytes "c2pa.claim") kind_of_box refl refl refl refl

manifest_described : IsDescription (described (bytes "c2pa"))
unfolding is_utf8
manifest_described = new_description-IsDescription (bytes "c2pa") kind_of_box refl refl refl refl

claim-IsBox : IsBox claim
claim-IsBox = is_super claim_described (is_cons (is_cbor (1 ∷ 2 ∷ 3 ∷ [])) is_nil)

manifest-IsBox : IsBox manifest
manifest-IsBox =
    is_super manifest_described (is_cons claim-IsBox (is_cons (is_json (bytes "{}")) is_nil))

-- A nested store reads back.
read_manifest : read_store (write_store manifest) ≡ ok (manifest, length (write_store manifest))
unfolding write_store read_store
read_manifest = refl

read_store-write_store_example :
    read_store (write_store manifest) ≡ ok (as_read manifest, length (write_store manifest))
unfolding write_store write_box write_description write_description_payload write_c_string label_str
    is_utf8 write_box_id write_opt
read_store-write_store_example =
    read_store-write_store (described (bytes "c2pa")) parts manifest-IsBox (omega arith)

read_super_box-write_box_example :
    read_super_box 200 (write_box claim ++ 5 ∷ []) 0
    ≡ ok (as_read claim, 0 + length (write_box claim))
unfolding write_box write_description write_description_payload write_c_string label_str is_utf8
    write_box_id write_opt
read_super_box-write_box_example =
    read_super_box-write_box (write_box claim ++ 5 ∷ []) 0 (5 ∷ []) (described (bytes "c2pa.claim"))
      (cons (cbor (1 ∷ 2 ∷ 3 ∷ [])) nil) 200 claim-IsBox (omega arith) (omega arith)
      (At-start (write_box claim ++ 5 ∷ [])) (omega arith)

abbrev endless : List ℕ
endless = 1 ∷ 0 ∷ 0 ∷ 0 ∷ 9 ∷ 120 ∷ 121 ∷ 122 ∷ []

read_boxes_hangs_example : read_boxes 50 endless 100 1 ≡ stuck
unfolding box_type
read_boxes_hangs_example =
    read_boxes_hangs endless 0 1 120 121 122 (At-start endless) (omega arith) refl (omega arith) 50
      100

abbrev two_boxes : List ℕ
two_boxes = write_box (super (described (bytes "c2pa")) nil) ++ (write_box (cbor (6 ∷ [])) ++ [])

read_super_box-childless_example : read_super_box 30 two_boxes 0 ≡ err invalid_jumb_box
unfolding write_box write_description write_description_payload write_c_string label_str is_utf8
    write_box_id write_opt
read_super_box-childless_example =
    read_super_box-childless two_boxes 0 [] (described (bytes "c2pa")) (cbor (6 ∷ [])) 28
      manifest_described (is_cbor (6 ∷ [])) (omega arith) (omega arith) (omega arith) (omega arith)
      (At-start two_boxes)

box_size-eq-length_example : box_size claim ≡ length (write_box claim)
unfolding write_box write_description write_description_payload write_c_string label_str is_utf8
    write_box_id write_opt
box_size-eq-length_example = box_size-eq-length claim claim-IsBox (omega arith)

abbrev urn : Text
urn = bytes "urn:c2pa:1"

urn-IsLabel : IsLabel urn
urn-IsLabel = record { no_slash = omega arith; no_equals = omega arith }

abbrev actions : Text
actions = bytes "c2pa.actions"

actions-IsLabel : IsLabel actions
actions-IsLabel = record { no_slash = omega arith; no_equals = omega arith }

labels_from_assertion_uri_example :
    (manifest_label_from_uri (to_assertion_uri urn actions) ≡ some urn)
    × (assertion_label_from_uri {E = Error} (to_assertion_uri urn actions) ≡ ok (some actions))
    × (box_name_from_uri (to_assertion_uri urn actions) ≡ some actions)
labels_from_assertion_uri_example =
    labels_from_assertion_uri {E = Error} urn actions urn-IsLabel actions-IsLabel

to_absolute_uri-to_relative_uri_example :
    (to_absolute_uri urn (to_relative_uri (to_assertion_uri urn actions))
      ≡ to_assertion_uri urn actions)
    × (is_relative_url (to_relative_uri (to_assertion_uri urn actions)) ≡ true)
to_absolute_uri-to_relative_uri_example =
    to_absolute_uri-to_relative_uri urn actions urn-IsLabel actions-IsLabel

abbrev label_guid : Text
label_guid = bytes "3fad1ead"

label_guid-IsPart : IsPart label_guid
label_guid-IsPart = record {
  no_colon = omega arith;
  no_slash = omega arith;
  no_equals = omega arith;
}

vendor-IsPart : IsPart (bytes "acme")
vendor-IsPart = record { no_colon = omega arith; no_slash = omega arith; no_equals = omega arith }

manifest_label_to_parts-print_example :
    manifest_label_to_parts (bytes "urn:c2pa:3fad1ead:acme:2_1")
    ≡ some (v2 label_guid (some (bytes "acme")) (some 2) (some 1))
unfolding print c2pa_rs_html.Claim.Decimal.to_decimal
manifest_label_to_parts-print_example =
    manifest_label_to_parts-print label_guid label_guid-IsPart (some (bytes "acme")) (some 2)
      (some 1) (vendor-IsPart, refl) (omega arith, omega arith)
