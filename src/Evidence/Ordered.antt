-- ===== src/Evidence/Ordered.antt =====
-- evidence.go, `Collect`: the order in which a reader lists the devices does not show.
use mathlib.Core.List.{Permᴰ}
use gpufleet_agent.Prelude.{String, ◌≡◌, refl, ap, ◌∙◌, inl, inr, List, [], ◌∷◌, In, arith}
use gpufleet_agent.Prelude.Order.{str_le_trans, str_le_total, str_le_antisymm}
use gpufleet_agent.Semantics.{ok}
use gpufleet_agent.Evidence.{DeviceMetrics, EvidenceReader, insert_device, sort_devices, collect}

module _ {F : Type 0} where
  insert_device_comm :
      (x y : DeviceMetrics F) (l : List (DeviceMetrics F))
      → (x.uuid ≡ y.uuid → x ≡ y)
      → insert_device x (insert_device y l) ≡ insert_device y (insert_device x l)
  unfolding insert_device
  insert_device_comm x y [] h =
      ground (arith, str_le_total x.uuid y.uuid, str_le_antisymm x.uuid y.uuid, h)
  insert_device_comm x y (z ∷ l) h = ground (
    arith,
    h,
    insert_device_comm x y l h,
    str_le_total x.uuid y.uuid,
    str_le_antisymm x.uuid y.uuid,
    str_le_trans x.uuid y.uuid z.uuid,
    str_le_trans y.uuid x.uuid z.uuid,
  )

  -- One UUID, one device.
  abbrev pub IsNamed : List (DeviceMetrics F) → Type 0
  IsNamed l = (x y : DeviceMetrics F) → In x l → In y l → x.uuid ≡ y.uuid → x ≡ y

  In-perm : (x : DeviceMetrics F) {l m : List (DeviceMetrics F)} → Permᴰ l m → In x m → In x l
  In-perm x Permᴰ.nil h = h
  In-perm x (Permᴰ.cons e d) (inl p) = inl (e ∙ p)
  In-perm x (Permᴰ.cons e d) (inr h) = inr (In-perm x d h)
  In-perm x (Permᴰ.swap e f) (inl p) = inr (inl (f ∙ p))
  In-perm x (Permᴰ.swap e f) (inr (inl p)) = inl (e ∙ p)
  In-perm x (Permᴰ.swap e f) (inr (inr h)) = inr (inr h)
  In-perm x (Permᴰ.trans d d') h = In-perm x d (In-perm x d' h)

  sort_devices-perm :
      {l m : List (DeviceMetrics F)} → Permᴰ l m → IsNamed l → sort_devices l ≡ sort_devices m
  unfolding sort_devices
  sort_devices-perm Permᴰ.nil h = refl
  sort_devices-perm (Permᴰ.cons {a = a} {l₂ = l₂} e d) h =
      ap (insert_device a) (sort_devices-perm d (λ y z p q. h y z (inr p) (inr q)))
      ∙ ap (λ x. insert_device x (sort_devices l₂)) e
  sort_devices-perm (Permᴰ.swap {a = a} {b = b} {a' = a'} {l = l} e f) h =
      insert_device_comm a b (sort_devices l) (h a b (inl refl) (inr (inl refl)))
      ∙ ap (λ x. insert_device x (insert_device a (sort_devices l))) f
      ∙ ap (λ x. insert_device a' (insert_device x (sort_devices l))) e
  sort_devices-perm (Permᴰ.trans d d') h =
      sort_devices-perm d h
      ∙ sort_devices-perm d' (λ y z p q. h y z (In-perm y d p) (In-perm z d q))

module _ {F W : Type 0} where
  -- Where a UUID names one device, two readers that answer with the same devices in different orders
  -- give the same evidence.
  pub collect-perm :
      (read read' : EvidenceReader F W) (w : W) (source : String) (l m : List (DeviceMetrics F))
      → (read w).0 ≡ ok (record { source = source; devices = l })
      → (read' w).0 ≡ ok (record { source = source; devices = m })
      → Permᴰ l m
      → IsNamed l
      → (collect read w).0 ≡ (collect read' w).0
  unfolding collect
  collect-perm read read' w source l m e e' d h =
      rw (e, e') (ap (λ ds. ok (record { source = source; devices = ds })) (sort_devices-perm d h))
