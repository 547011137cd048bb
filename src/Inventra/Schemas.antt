-- ===== src/Inventra/Schemas.antt =====
-- backend/app/integrations/inventra/schemas.py: the response contracts. A date is the ISO text
-- that `model_dump` gives, and a float the bit pattern of the double.
use ecommerce_sales_agent.Prelude.{ℕ, Bool, Option, List}
use ecommerce_sales_agent.Prelude.Int.{ℤ}
use ecommerce_sales_agent.Text.{Text}

abbrev pub Float : Type 0
Float = ℕ

pub record Product : Type 0 where
  pub id : ℕ
  pub name : Text
  pub sku : Text
  pub description : Option Text
  pub category_id : Option ℕ
  pub category_name : Option Text
  pub price : Float
  pub is_active : Bool
  pub created_at : Text
  pub updated_at : Text

pub record ProductListResponse : Type 0 where
  pub products : List Product
  pub total : ℕ
  pub page : ℕ
  pub per_page : ℕ
  pub pages : ℕ

pub record Category : Type 0 where
  pub id : ℕ
  pub name : Text
  pub description : Option Text
  pub created_at : Text
  pub updated_at : Text

pub record InventoryItem : Type 0 where
  pub id : ℕ
  pub product_id : ℕ
  pub product_name : Option Text
  pub product_sku : Option Text
  pub quantity : ℤ
  pub low_stock_threshold : ℤ
  pub is_low_stock : Bool
  pub updated_at : Text

pub record StockOutResult : Type 0 where
  pub product_id : ℕ
  pub product_name : Option Text
  pub quantity : ℤ
  pub low_stock_threshold : Option ℤ
  pub is_low_stock : Option Bool

pub record StockMovement : Type 0 where
  pub id : ℕ
  pub product_id : ℕ
  pub product_name : Option Text
  pub user_id : ℕ
  pub username : Option Text
  pub movement_type : Text
  pub quantity : ℤ
  pub notes : Option Text
  pub created_at : Text

pub record StockMovementListResponse : Type 0 where
  pub movements : List StockMovement
  pub total : ℕ
  pub page : ℕ
  pub per_page : ℕ

pub data StockStatus : Type 0 where
  in_stock out_of_stock low_stock : StockStatus

pub data MovementType : Type 0 where
  stock_in stock_out stock_adjustment : MovementType
