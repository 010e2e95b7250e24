-- ===== src/Dag/Visit/Paint.antt =====
-- What painting a component does to the colours.
use krateo_openstack_bluepri.Prelude.{
  String, ◌≡◌, ◌⊎◌, inl, inr, refl, ◌==◌, if◌then◌else◌, arith, lookup-insert,
}
use krateo_openstack_bluepri.Dag.Visit.{Colour, white, grey, black, Search, colour, paint}

pub colour-paint :
    (n m : String) (c : Colour) (s : Search)
    → colour (paint n c s) m ≡ (if n == m then c else colour s m)
unfolding paint
colour-paint n m c s = ground (arith, lookup-insert n m c s.state)

pub Colour-cases : (c : Colour) → (c ≡ white) ⊎ (c ≡ grey) ⊎ (c ≡ black)
Colour-cases white = inl refl
Colour-cases grey = inr (inl refl)
Colour-cases black = inr (inr refl)
