-- ===== src/Authorization/Visibility.antt =====
-- The list form and the row form of the visibility rule of
-- backend/kairos/identity/authorization.py, and who may do what with a booking.
use kairos_booking_engine.Base.{
  ℕ, ◌≡◌, refl, Bool, true, false, ◌&&◌, ◌||◌, List, [], ◌∷◌, arith, ◌==◌, any, select, map,
  Bool-cases, Option-cases, inl, inr, not,
}
use kairos_booking_engine.Schema.{Booking}
use kairos_booking_engine.Authorization.{
  AppUser, Resource, ResourceAdmin, UserGroupMembership, Directory, is_system_admin, is_operations,
  can_administer_resource, can_view_booking, can_edit_booking, can_cancel_booking,
  can_view_resource, is_in, is_listed, visible_resources_queryset,
}

member_groups :
    (user group : ℕ) (rows : List UserGroupMembership)
    → is_in group (map (λ m. m.group) (select (λ m. m.user == user) rows))
      ≡ any (λ m. m.group == group && m.user == user) rows
member_groups user group [] = refl
member_groups user group (x ∷ rows) = ground (arith, member_groups user group rows)

administered_resources :
    (user resource : ℕ) (rows : List ResourceAdmin)
    → is_in resource (map (λ g. g.resource) (select (λ g. g.user == user) rows))
      ≡ any (λ g. g.resource == resource && g.user == user) rows
administered_resources user resource [] = refl
administered_resources user resource (x ∷ rows) =
    ground (arith, administered_resources user resource rows)

select_same :
    (p q : Resource → Bool) (rows : List Resource)
    → ((r : Resource) → p r ≡ q r)
    → select p rows ≡ select q rows
select_same p q [] h = refl
select_same p q (x ∷ rows) h = ground (arith, h x, select_same p q rows h)

select_all :
    (p : Resource → Bool) (rows : List Resource)
    → ((r : Resource) → p r ≡ true)
    → rows ≡ select p rows
select_all p [] h = refl
select_all p (x ∷ rows) h = ground (arith, h x, select_all p rows h)

seen_globally :
    (d : Directory) (user : AppUser) (r : Resource)
    → is_system_admin user || is_operations user ≡ true
    → can_view_resource d user r ≡ true
unfolding can_view_resource can_administer_resource
seen_globally d user r global = ground arith

seen_by_scope :
    (d : Directory) (user : AppUser) (r : Resource)
    → is_system_admin user || is_operations user ≡ false
    → is_listed d user r ≡ can_view_resource d user r
unfolding can_view_resource can_administer_resource
seen_by_scope d user r scoped = elim (Option-cases r.restricted_group) [
  | inl open_to_all ↦ ground arith
  | inr (group, restricted) ↦ ground (
    arith,
    member_groups user.id group d.memberships,
    administered_resources user.id r.id d.admin_grants,
  )
]

-- The query for the list of visible resources gives exactly the resources that the check of a
-- single resource lets the user see, in the order of the table.
pub visible_resources_queryset_lem :
    (d : Directory) (user : AppUser)
    → visible_resources_queryset d user ≡ select (can_view_resource d user) d.resources
unfolding visible_resources_queryset
visible_resources_queryset_lem d user =
    elim (Bool-cases (is_system_admin user || is_operations user)) [
      | inl global ↦
          rw global
            (select_all (can_view_resource d user) d.resources (λ r. seen_globally d user r global))
      | inr scoped ↦ rw scoped (
          select_same (is_listed d user) (can_view_resource d user) d.resources
            (λ r. seen_by_scope d user r scoped))
    ]

-- A user may cancel a booking exactly if he owns it or administers its resource, it is an
-- override exactly if he administers the resource and does not own the booking, and those who
-- may view it are those who may cancel it and the operations staff.
pub can_cancel_booking_lem :
    (d : Directory) (user : AppUser) (booking : Booking)
    → ((can_cancel_booking d user booking).0
        ≡ (can_edit_booking user booking || can_administer_resource d user booking.resource))
      × ((can_cancel_booking d user booking).1 ≡ (
          not (can_edit_booking user booking) && can_administer_resource d user booking.resource))
      × (can_view_booking d user booking
          ≡ ((can_cancel_booking d user booking).0 || is_operations user))
unfolding can_cancel_booking can_view_booking
can_cancel_booking_lem d user booking = (ground arith, ground arith, ground arith)
