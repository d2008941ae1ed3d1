-- ===== src/Access/Gates.antt =====
-- The four access decisions, and how they depend on one another.
use konnaxion_worlds.Base.{
  ◌≡◌, ◌↔◌, ◌⊎◌, inl, inr, true, false, Option, none, some, arith, any-In, In-any, In,
}
use konnaxion_worlds.Models.{Universe, UniverseMembership, World, User, Visibility}
use konnaxion_worlds.Access.{
  Registry, can_manage_universe, can_access_universe, can_manage_world, can_access_world,
  is_universe_member, has_universe_role,
}

module _ (db : Registry) where
  -- Whoever manages a Universe may enter it.
  pub manage_universe-access :
      (user : Option User) (universe : Universe)
      → can_manage_universe db user universe ≡ true
      → can_access_universe db user universe ≡ true
  unfolding can_manage_universe can_access_universe
  manage_universe-access none universe h = ground arith
  manage_universe-access (some user) universe h = ground arith

  -- Whoever manages a World may enter it, and may enter its Universe.
  pub manage_world-access :
      (user : Option User) (world : World) (universe : Universe)
      → can_manage_world db user world universe ≡ true
      → (can_access_world db user world universe ≡ true)
        × (can_access_universe db user universe ≡ true)
  unfolding can_manage_world can_access_world
  manage_world-access none world universe h = absurd (ground arith)
  manage_world-access (some user) world universe h = ground arith

  -- The Universe is an outer boundary: whoever may not enter it has no access to any World in it,
  -- public or not, and manages none, as staff, creator or member of the World.
  pub outer_boundary :
      (user : Option User) (world : World) (universe : Universe)
      → can_access_universe db user universe ≡ false
      → (can_access_world db user world universe ≡ false)
        × (can_manage_world db user world universe ≡ false)
  unfolding can_manage_world can_access_world
  outer_boundary none world universe h = ground arith
  outer_boundary (some user) world universe h = ground arith

  -- Who may enter a private Universe, said without the order of the tests.
  pub record IsInsider (user : User) (universe : Universe) : Type 0 where
    pub signed_in : user.is_authenticated ≡ true
    pub reason :
        (user.is_staff ≡ true)
        ⊎ (user.is_superuser ≡ true)
        ⊎ (universe.created_by_id ≡ some user.id)
        ⊎ ((m : UniverseMembership) × In m db.universe_memberships
            × (m.universe_id ≡ universe.id)
            × (m.user_id ≡ user.id)
            × (m.is_active ≡ true))

  is_member :
      (user : User) (universe : Universe)
      → is_universe_member db user universe ≡ true
      → (m : UniverseMembership) × In m db.universe_memberships
        × (m.universe_id ≡ universe.id)
        × (m.user_id ≡ user.id)
        × (m.is_active ≡ true)
  unfolding is_universe_member
  is_member user universe h =
      let (m, here, passes) = any-In _ db.universe_memberships h in
      (m, here, ground arith, ground arith, ground arith)

  role_is_member :
      (user : User) (universe : Universe)
      → has_universe_role db user universe ≡ true
      → is_universe_member db user universe ≡ true
  unfolding is_universe_member has_universe_role
  role_is_member user universe h =
      let (m, here, passes) = any-In _ db.universe_memberships h in
      In-any _ m db.universe_memberships here (ground arith)

  member_is :
      (user : User) (universe : Universe) (m : UniverseMembership)
      → In m db.universe_memberships
      → m.universe_id ≡ universe.id
      → m.user_id ≡ user.id
      → m.is_active ≡ true
      → is_universe_member db user universe ≡ true
  unfolding is_universe_member
  member_is user universe m here u v w = In-any _ m db.universe_memberships here (ground arith)

  access_cases :
      (user : User) (universe : Universe)
      → universe.visibility ≡ Visibility.private
      → can_access_universe db (some user) universe ≡ true
      → (user.is_authenticated ≡ true)
        × ((user.is_staff ≡ true)
            ⊎ (user.is_superuser ≡ true)
            ⊎ (universe.created_by_id ≡ some user.id)
            ⊎ (is_universe_member db user universe ≡ true))
  unfolding can_access_universe
  access_cases user universe hidden h = ground (arith, role_is_member user universe)

  enters_as :
      (user : User) (universe : Universe)
      → universe.visibility ≡ Visibility.private
      → user.is_authenticated ≡ true
      → (user.is_staff ≡ true)
        ⊎ (user.is_superuser ≡ true)
        ⊎ (universe.created_by_id ≡ some user.id)
        ⊎ (is_universe_member db user universe ≡ true)
      → can_access_universe db (some user) universe ≡ true
  unfolding can_access_universe
  enters_as user universe hidden signed why = ground (arith, role_is_member user universe)

  -- A private Universe admits exactly its insiders: signed-in staff, superusers, its creator, and
  -- the users with an active membership of it, in any role.
  pub access_private_universe :
      (user : User) (universe : Universe)
      → universe.visibility ≡ Visibility.private
      → (can_access_universe db (some user) universe ≡ true) ↔ IsInsider user universe
  access_private_universe user universe hidden = (
    (λ h.
        let (signed, why) = access_cases user universe hidden h in
        record { signed_in = signed; reason = insider why }),
    (λ i. enters_as user universe hidden i.signed_in (passes i.reason)),
  )
    where
      Member : Type 0
      Member =
          (m : UniverseMembership) × In m db.universe_memberships
          × (m.universe_id ≡ universe.id)
          × (m.user_id ≡ user.id)
          × (m.is_active ≡ true)

      insider :
          (user.is_staff ≡ true)
            ⊎ (user.is_superuser ≡ true)
            ⊎ (universe.created_by_id ≡ some user.id)
            ⊎ (is_universe_member db user universe ≡ true)
          → (user.is_staff ≡ true)
            ⊎ (user.is_superuser ≡ true)
            ⊎ (universe.created_by_id ≡ some user.id)
            ⊎ Member
      insider (inl a) = inl a
      insider (inr (inl a)) = inr (inl a)
      insider (inr (inr (inl a))) = inr (inr (inl a))
      insider (inr (inr (inr a))) = inr (inr (inr (is_member user universe a)))

      passes :
          (user.is_staff ≡ true)
            ⊎ (user.is_superuser ≡ true)
            ⊎ (universe.created_by_id ≡ some user.id)
            ⊎ Member
          → (user.is_staff ≡ true)
            ⊎ (user.is_superuser ≡ true)
            ⊎ (universe.created_by_id ≡ some user.id)
            ⊎ (is_universe_member db user universe ≡ true)
      passes (inl a) = inl a
      passes (inr (inl a)) = inr (inl a)
      passes (inr (inr (inl a))) = inr (inr (inl a))
      passes (inr (inr (inr (m, here, u, v, w)))) =
          inr (inr (inr (member_is user universe m here u v w)))

  -- Without a user the decision reads no membership: a World is open exactly when it is public and
  -- its Universe is public too.
  pub anonymous_access :
      (world : World) (universe : Universe)
      → (can_access_world db none world universe ≡ true)
        ↔ ((world.visibility ≡ Visibility.public) × (universe.visibility ≡ Visibility.public))
  unfolding can_access_world can_access_universe
  anonymous_access world universe = ground arith
