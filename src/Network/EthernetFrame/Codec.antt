-- ===== src/Network/EthernetFrame/Codec.antt =====
-- The bytes of a frame, and the round trips between frames and bytes.
use hzl_silicon_switch_lab.Base.{
  sym, ℕ, ◌-◌, ◌^◌, ◌≤◌, ◌<◌, ◌≡◌, ◌≢◌, refl, ap, ◌∙◌, List, ◌∷◌, ◌++◌, Option, none, some, arith,
  ==_false, ◌↔◌, Option-cases, inl, inr, ltb-false, length, drop, copy_to-append, replicate,
  replicate-add, length-replicate,
}
use hzl_silicon_switch_lab.Wire.{write_loop}
use hzl_silicon_switch_lab.Wire.Layout.{be_bytes, write_fits, read-be_bytes}
use hzl_silicon_switch_lab.Network.Vlan.{
  VlanTag, IsTag, tag_control_information, from-tag_control_information,
  tag_control_information_lem,
}
use hzl_silicon_switch_lab.Network.MacAddress.{mac_bytes}
use hzl_silicon_switch_lab.Network.EthernetFrame.{
  EthernetFrame, IsFrame, read_mac, write_mac, create_frame, parse_payload, parse_tagged,
  parse_frame, serialize_frame, ether_type_vlan_tagged,
}

-- The two addresses, as the head of every frame.
abbrev addresses : EthernetFrame → List ℕ → List ℕ
addresses f rest = mac_bytes f.destination ++ (mac_bytes f.source ++ rest)

-- The wire form of a frame.
abbrev pub frame_image : EthernetFrame → Option VlanTag → List ℕ
frame_image f none = addresses f (be_bytes 2 f.ether_type ++ f.payload)
frame_image f (some tag) = addresses f (
    be_bytes 2 ether_type_vlan_tagged
    ++ (be_bytes 2 (tag_control_information tag) ++ (be_bytes 2 f.ether_type ++ f.payload)))

-- Serialising writes every cell of the wire form.
image_untagged : (f : EthernetFrame) → f.vlan_tag ≡ none → serialize_frame f ≡ frame_image f none
unfolding serialize_frame write_mac write_loop
image_untagged f e =
    let n = length f.payload in
    let zeros : List ℕ = 0 ∷ 0 ∷ replicate n 0 in
    rw
      (
        e,
        replicate-add {A = ℕ} 14 n 0,
        write_fits 2 f.ether_type (addresses f zeros) 12 (omega arith),
      )
      (copy_to-append (addresses f (be_bytes 2 f.ether_type)) f.payload (replicate n 0)
        (length-replicate n 0))

image_tagged :
    (f : EthernetFrame) (tag : VlanTag)
    → f.vlan_tag ≡ some tag
    → serialize_frame f ≡ frame_image f (some tag)
unfolding serialize_frame write_mac write_loop
image_tagged f tag e =
    let n = length f.payload in
    let outer = be_bytes 2 ether_type_vlan_tagged in
    let info = be_bytes 2 (tag_control_information tag) in
    let zeros : List ℕ = 0 ∷ 0 ∷ replicate n 0 in
    rw
      (
        e,
        replicate-add {A = ℕ} 18 n 0,
        write_fits 2 ether_type_vlan_tagged (addresses f (0 ∷ 0 ∷ 0 ∷ 0 ∷ zeros)) 12 (omega arith),
        write_fits 2 (tag_control_information tag) (addresses f (outer ++ (0 ∷ 0 ∷ zeros))) 14
            (omega arith),
        write_fits 2 f.ether_type (addresses f (outer ++ (info ++ zeros))) 16 (omega arith),
      )
      (copy_to-append (addresses f (outer ++ (info ++ be_bytes 2 f.ether_type))) f.payload
        (replicate n 0) (length-replicate n 0))

tag_control_information-lt : (t : VlanTag) → IsTag t → tag_control_information t < 2 ^ 16
tag_control_information-lt t v = ground (arith, tag_control_information_lem t v)

-- The end of the parse, on bytes whose head and payload are known.
parse_payload_lem :
    (f : EthernetFrame) (bytes : List ℕ) (ether_type offset : ℕ) (tag : Option VlanTag)
    → read_mac bytes 0 ≡ f.destination
    → read_mac bytes 6 ≡ f.source
    → drop offset bytes ≡ f.payload
    → length bytes - offset ≡ length f.payload
    → length f.payload ≤ 1500
    → parse_payload bytes ether_type offset tag
      ≡ some (record {
        destination = f.destination;
        source = f.source;
        ether_type = ether_type;
        payload = f.payload;
        vlan_tag = tag;
      })
unfolding parse_payload create_frame
parse_payload_lem f bytes ether_type offset tag d s p len fits =
    rw (len, d, s, p, ltb-false 1500 (length f.payload) fits)

parse_untagged :
    (f : EthernetFrame)
    → IsFrame f
    → f.ether_type ≢ ether_type_vlan_tagged
    → f.vlan_tag ≡ none
    → parse_frame (frame_image f none) ≡ some f
unfolding parse_frame
parse_untagged f v ne e = rw (
  ltb-false (length (frame_image f none)) 14 (omega arith),
  read-be_bytes 2 f.ether_type (frame_image f none) f.payload 12 refl (omega arith) v.type_fits,
  ==_false f.ether_type ether_type_vlan_tagged ne,
  parse_payload_lem f (frame_image f none) f.ether_type 14 none (unfold read_mac in refl)
      (unfold read_mac in refl) refl (omega arith) v.payload_fits,
  e,
)

parse_tagged_lem :
    (f : EthernetFrame) (tag : VlanTag)
    → IsFrame f
    → IsTag tag
    → parse_tagged (frame_image f (some tag)) ≡ some (record f { vlan_tag = some tag })
unfolding parse_tagged
parse_tagged_lem f tag v t =
    let bytes = frame_image f (some tag) in
    rw (
      ltb-false (length bytes) 18 (omega arith),
      read-be_bytes 2 (tag_control_information tag) bytes (be_bytes 2 f.ether_type ++ f.payload) 14
          refl (omega arith) (omega (arith, tag_control_information-lt tag t)),
      read-be_bytes 2 f.ether_type bytes f.payload 16 refl (omega arith) v.type_fits,
      from-tag_control_information tag t,
      parse_payload_lem f bytes f.ether_type 18 (some tag) (unfold read_mac in refl)
          (unfold read_mac in refl) refl (omega arith) v.payload_fits,
    )

parse_outer :
    (f : EthernetFrame) (tag : VlanTag)
    → parse_frame (frame_image f (some tag)) ≡ parse_tagged (frame_image f (some tag))
unfolding parse_frame
parse_outer f tag =
    let bytes = frame_image f (some tag) in
    rw (
      ltb-false (length bytes) 14 (omega arith),
      read-be_bytes 2 ether_type_vlan_tagged bytes _ 12 refl (omega arith) (omega arith),
    )

-- A tagged frame is read from the untagged form only with a tag.
parse_tagged-ne :
    (bytes : List ℕ) (f : EthernetFrame) → f.vlan_tag ≡ none → parse_tagged bytes ≢ some f
unfolding parse_tagged parse_payload create_frame
parse_tagged-ne bytes f e h = ground arith

parse_outer_untagged :
    (f : EthernetFrame)
    → f.ether_type ≡ ether_type_vlan_tagged
    → parse_frame (frame_image f none) ≡ parse_tagged (frame_image f none)
unfolding parse_frame
parse_outer_untagged f e =
    let bytes = frame_image f none in
    rw (
      ltb-false (length bytes) 14 (omega arith),
      read-be_bytes 2 f.ether_type bytes f.payload 12 refl (omega arith) (omega arith),
      e,
    )

IsTag-of : (f : EthernetFrame) (tag : VlanTag) → IsFrame f → f.vlan_tag ≡ some tag → IsTag tag
IsTag-of f tag v e = rw e at v.tag

retag :
    (f : EthernetFrame) (tag : VlanTag)
    → f.vlan_tag ≡ some tag
    → record f { vlan_tag = some tag } ≡ f
retag f tag e = ground arith

-- Serialising a valid frame and parsing the bytes gives the frame back, unless it carries no tag
-- and yet has the EtherType of tagged frames; then, and only then, it does not.
pub parse-serialize_frame :
    (f : EthernetFrame)
    → IsFrame f
    → (parse_frame (serialize_frame f) ≡ some f)
      ↔ (f.vlan_tag ≡ none → f.ether_type ≢ ether_type_vlan_tagged)
parse-serialize_frame f v = elim (Option-cases f.vlan_tag) [
  | inl e ↦ rw (image_untagged f e) (
    λ same _ eight.
        parse_tagged-ne (frame_image f none) f e (sym (parse_outer_untagged f eight) ∙ same),
    λ ok. parse_untagged f v (ok e) e,
  )
  | inr (tag, e) ↦ rw (image_tagged f tag e) (
    λ _ untagged. absurd (cc),
    λ _.
        parse_outer f tag ∙ parse_tagged_lem f tag v (IsTag-of f tag v e) ∙ ap some (retag f tag e),
  )
]
