-- ===== src/Constants/SiteProperty.antt =====
-- The enumeration `QDMI_SITE_PROPERTY_T` of include/qdmi/constants.h: the numbers of the
-- properties of a site.
use qdmi.Base.{ℕ, List, [], ◌∷◌}

abbrev pub index : ℕ
index = 0

abbrev pub t1 : ℕ
t1 = 1

abbrev pub t2 : ℕ
t2 = 2

abbrev pub name : ℕ
name = 3

abbrev pub xcoordinate : ℕ
xcoordinate = 4

abbrev pub ycoordinate : ℕ
ycoordinate = 5

abbrev pub zcoordinate : ℕ
zcoordinate = 6

abbrev pub iszone : ℕ
iszone = 7

abbrev pub xextent : ℕ
xextent = 8

abbrev pub yextent : ℕ
yextent = 9

abbrev pub zextent : ℕ
zextent = 10

abbrev pub moduleindex : ℕ
moduleindex = 11

abbrev pub submoduleindex : ℕ
submoduleindex = 12

abbrev pub max_value : ℕ
max_value = 13

abbrev pub custom1 : ℕ
custom1 = 999999995

abbrev pub custom2 : ℕ
custom2 = 999999996

abbrev pub custom3 : ℕ
custom3 = 999999997

abbrev pub custom4 : ℕ
custom4 = 999999998

abbrev pub custom5 : ℕ
custom5 = 999999999

-- The members in their order.
abbrev pub members : List ℕ
members =
    index ∷ t1 ∷ t2 ∷ name ∷ xcoordinate ∷ ycoordinate ∷ zcoordinate ∷ iszone ∷ xextent ∷ yextent
    ∷ zextent ∷ moduleindex ∷ submoduleindex ∷ max_value ∷ custom1 ∷ custom2 ∷ custom3 ∷ custom4
    ∷ custom5 ∷ []
