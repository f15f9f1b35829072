-- ===== src/MemPool/Provider.antt =====
-- kernel/memory/get-page.cpp: the page source of the default pool, which has no pages yet.
use dvnetos.Base.{ℕ, refl, Option, none, none-some, arith}
use dvnetos.MemPool.Valid.{PageSource}

unfoldable pub get_page : (count : ℕ) → Unit {0} → Option ℕ × Unit {0}
get_page count w = (none, w)

unfoldable pub free_page : (ptr : ℕ) → Unit {0} → Unit {0}
free_page ptr w = w

-- It keeps the contract of a page source.
abbrev pub provider : PageSource (Unit {0})
unfolding get_page
provider = record {
  get_page = get_page;
  given = λ w x. 0;
  once = λ w x. omega arith;
  page_null = λ n w h x. refl;
  page_some = λ n w a h. none-some h;
}
